-- ===== src/Peer/Bulk/Transfer.antt =====
-- A transfer over the bulk channel, from the sender's reader to the receiver's sink.
use p2p_hls.Prelude.{
  ℕ, zero, suc, ◌+◌, ◌-◌, ◌%◌, ◌≤◌, ◌<◌, ◌≡◌, refl, sym, ap, subst, ◌∙◌, Bool, true, false,
  if◌then◌else◌, Option-cases, inl, inr, List, [], ◌∷◌, ◌++◌, length, take, drop, append_assoc,
  append_nil, select, lookup, lookup-insert, lookup-delete, nat_eq, ◌==◌, ==_iff, Option, none,
  some, arith,
}
use p2p_hls.Peer.Errors.{PeerError}
use p2p_hls.Peer.Bulk.{encode_bulk_frame, decode_bulk_frame}
use p2p_hls.Peer.Bulk.Frames.{decode-encode_bulk_frame}
use p2p_hls.Peer.Bulk.Send.{
  Read, reads, ends, breaks, Sent, payload_max, send_frame, send_payload, send_reader, reader_of,
  send_bulk,
}
use p2p_hls.Peer.Bulk.Receive.{
  BulkSink, Sinks, new_sink, signal_sink, absorb, Accepted, kept, failed, accept, settle_sink,
  deliver_frame, on_bulk, on_bulks,
}

-- Whether a message is a frame of the transfer.
unfoldable pub is_for : ℕ → List ℕ → Bool
is_for n raw = elim (decode_bulk_frame raw) [
  | none ↦ false
  | some (id, seq, last, payload) ↦ id == n
]

-- What a frame does to the sink that it is for, registered or not.
take_accepted : Accepted → Option BulkSink
take_accepted (kept s) = some s
take_accepted (failed e) = none

take_frame : Option BulkSink → Bool → List ℕ → Option BulkSink
take_frame none last payload = none
take_frame (some s) last payload = take_accepted (accept s last payload)

take_in : Option BulkSink → List ℕ → Option BulkSink
take_in o raw = elim (decode_bulk_frame raw) [
  | none ↦ o
  | some (id, seq, last, payload) ↦ take_frame o last payload
]

take_all_in : Option BulkSink → List (List ℕ) → Option BulkSink
take_all_in o [] = o
take_all_in o (raw ∷ rs) = take_all_in (take_in o raw) rs

lookup-settle_sink :
    (n id : ℕ) (sinks : Sinks) (a : Accepted)
    → lookup n (settle_sink sinks id a).0 ≡ (if id == n then take_accepted a else lookup n sinks)
unfolding settle_sink take_accepted
lookup-settle_sink n id sinks (kept s) = lookup-insert id n s sinks
lookup-settle_sink n id sinks (failed e) = lookup-delete id n sinks

lookup-deliver_frame :
    (n id : ℕ) (sinks : Sinks) (last : Bool) (payload : List ℕ)
    → lookup n (deliver_frame sinks id last payload).0
      ≡ (if id == n then take_frame (lookup n sinks) last payload else lookup n sinks)
unfolding deliver_frame take_frame
lookup-deliver_frame n id sinks last payload = elim (Option-cases (lookup id sinks)) [
  | inl e ↦ rw (e, deliver_frame) (absent (id == n) refl e)
  | inr (s, e) ↦
      rw (e, deliver_frame)
        (lookup-settle_sink n id sinks (accept s last payload) ∙ present s e (id == n) refl)
]
  where
    same : (id == n) ≡ true → lookup n sinks ≡ lookup id sinks
    same q = ap (λ k. lookup k sinks) (sym ((==_iff id n).0 q))

    absent :
        (b : Bool)
        → (id == n) ≡ b
        → lookup id sinks ≡ none
        → lookup n sinks ≡ (if b then take_frame (lookup n sinks) last payload else lookup n sinks)
    absent true q e = let z = same q ∙ e in rw z refl
    absent false q e = refl

    present :
        (s : BulkSink)
        → lookup id sinks ≡ some s
        → (b : Bool) → (id == n) ≡ b
        → (if b then take_accepted (accept s last payload) else lookup n sinks)
          ≡ (if b then take_frame (lookup n sinks) last payload else lookup n sinks)
    present s e true q = let z = same q ∙ e in rw z refl
    present s e false q = refl

lookup-on_bulk :
    (n : ℕ) (sinks : Sinks) (raw : List ℕ)
    → lookup n (on_bulk sinks raw).0
      ≡ (if is_for n raw then take_in (lookup n sinks) raw else lookup n sinks)
unfolding on_bulk is_for take_in
lookup-on_bulk n sinks raw = elim (Option-cases (decode_bulk_frame raw)) [
  | inl e ↦ rw (e, on_bulk, is_for) refl
  | inr ((id, seq, last, payload), e) ↦
      rw (e, on_bulk, is_for, take_in) (lookup-deliver_frame n id sinks last payload)
]

lookup-on_bulks :
    (n : ℕ) (sinks : Sinks) (ms : List (List ℕ))
    → lookup n (on_bulks sinks ms) ≡ take_all_in (lookup n sinks) (select (is_for n) ms)
unfolding on_bulks take_all_in
lookup-on_bulks n sinks [] = refl
lookup-on_bulks n sinks (raw ∷ ms) =
    lookup-on_bulks n (on_bulk sinks raw).0 ms
    ∙ ap (λ o. take_all_in o (select (is_for n) ms)) (lookup-on_bulk n sinks raw)
    ∙ at_head (is_for n raw)
  where
    at_head :
        (b : Bool)
        → take_all_in
            (if b then take_in (lookup n sinks) raw else lookup n sinks)
            (select (is_for n) ms)
          ≡ take_all_in
              (lookup n sinks)
              (if b then raw ∷ select (is_for n) ms else select (is_for n) ms)
    at_head true = refl
    at_head false = refl

-- The bytes that a reader gives before it ends.
abbrev bytes_of : List Read → List ℕ
bytes_of [] = []
bytes_of (reads bs ∷ r) = bs ++ bytes_of r
bytes_of (ends bs ∷ r) = bs
bytes_of (breaks bs e ∷ r) = bs

-- What the receiver has when a sending is over: success only if nothing failed, and then all of the
-- bytes after those that were there.
record Received (before expected : List ℕ) (sent : Sent) (s : BulkSink) : Type 0 where
  reported : s.done ≡ (elim sent.1 [ none ↦ some none | some e ↦ none ])
  complete : sent.1 ≡ none → s.written ≡ before ++ expected

-- A sink in memory that has no result.
record IsOpen (s : BulkSink) : Type 0 where
  writable : s.write_error ≡ none
  waiting : s.done ≡ none

module _ (flow : ℕ → Option PeerError) (id : ℕ) (fits : id < 18446744073709551616) where
  take_in-encode :
      (s : BulkSink) (seq : ℕ) (last : Bool) (payload : List ℕ)
      → s.write_error ≡ none
      → take_in (some s) (encode_bulk_frame id (seq % 4294967296) last payload)
        ≡ some (absorb s last payload)
  unfolding take_in take_frame take_accepted accept
  take_in-encode s seq last payload w =
      rw
        (
          decode-encode_bulk_frame id (seq % 4294967296) last payload fits (omega arith),
          take_in,
          take_frame,
        )
        (accepts payload)
    where
      accepts : (p : List ℕ) → take_accepted (accept s last p) ≡ some (absorb s last p)
      accepts [] = refl
      accepts (b ∷ r) = rw w refl

  -- The sink that a sending leaves, with what it has received.
  record Delivers (s : BulkSink) (expected : List ℕ) (sent : Sent) : Type 0 where
    sink : BulkSink
    taken : take_all_in (some s) sent.0 ≡ some sink
    received : Received s.written expected sent sink

  send_frame_last :
      (seq : ℕ) (s : BulkSink)
      → IsOpen s
      → Delivers s [] (send_frame flow id seq true [] ([], none))
  unfolding take_all_in absorb signal_sink send_frame
  send_frame_last seq s o = elim (Option-cases (flow seq)) [
    | inl e ↦
        rw (e, send_frame)
          record {
            sink = absorb s true [];
            taken = take_in-encode s seq true [] o.writable;
            received = record { reported = rw o.waiting refl; complete = λ q. rw o.waiting refl };
          }
    | inr (err, e) ↦
        rw (e, send_frame)
          record {
            sink = s;
            taken = refl;
            received = record { reported = o.waiting; complete = λ q. ground arith };
          }
  ]

  -- A frame that went out, before what follows.
  after_frame :
      (seq : ℕ) (bs rest : List ℕ) (sent : Sent) (s : BulkSink)
      → IsOpen s
      → Delivers (absorb s false bs) rest sent
      → Delivers s (bs ++ rest) (encode_bulk_frame id (seq % 4294967296) false bs ∷ sent.0, sent.1)
  unfolding take_all_in absorb
  after_frame seq bs rest sent s o d = record {
    sink = d.sink;
    taken = rw (take_in-encode s seq false bs o.writable) d.taken;
    received = record {
      reported = d.received.reported;
      complete = λ q. d.received.complete q ∙ append_assoc s.written bs rest;
    };
  }

  send_payload_lem :
      (seq : ℕ) (bs rest : List ℕ) (next : ℕ → Sent) (s : BulkSink)
      → IsOpen s
      → ((k : ℕ) (t : BulkSink) → IsOpen t → Delivers t rest (next k))
      → Delivers s (bs ++ rest) (send_payload flow id seq bs next)
  unfolding send_payload absorb send_frame take_all_in
  send_payload_lem seq [] rest next s o f = f seq s o
  send_payload_lem seq (b ∷ r) rest next s o f = elim (Option-cases (flow seq)) [
    | inl e ↦
        rw (e, send_frame)
          (after_frame seq (b ∷ r) rest (next (seq + 1)) s o (
            f (seq + 1) (absorb s false (b ∷ r))
              record { writable = o.writable; waiting = o.waiting }))
    | inr (err, e) ↦
        rw (e, send_frame)
          record {
            sink = s;
            taken = refl;
            received = record { reported = o.waiting; complete = λ q. ground arith };
          }
  ]

  stops : (err : PeerError) (k : ℕ) (t : BulkSink) → IsOpen t → Delivers t [] ([], some err)
  unfolding take_all_in
  stops err k t o = record {
    sink = t;
    taken = refl;
    received = record { reported = o.waiting; complete = λ q. ground arith };
  }

  send_reader_lem :
      (rs : List Read) (seq : ℕ) (s : BulkSink)
      → IsOpen s
      → Delivers s (bytes_of rs) (send_reader flow id seq rs)
  unfolding send_reader
  send_reader_lem [] seq s o = send_frame_last seq s o
  send_reader_lem (reads bs ∷ r) seq s o =
      send_payload_lem seq bs (bytes_of r) (λ k. send_reader flow id k r) s o
        (λ k t o. send_reader_lem r k t o)
  send_reader_lem (ends bs ∷ r) seq s o =
      subst (λ x. Delivers s x (send_reader flow id seq (ends bs ∷ r))) (append_nil bs)
        (send_payload_lem seq bs [] (λ k. send_frame flow id k true [] ([], none)) s o
          send_frame_last)
  send_reader_lem (breaks bs e ∷ r) seq s o =
      subst (λ x. Delivers s x (send_reader flow id seq (breaks bs e ∷ r))) (append_nil bs)
        (send_payload_lem seq bs [] (λ k. ([], some e)) s o (stops e))

length-drop : (n : ℕ) (xs : List ℕ) → length (drop n xs) ≡ length xs - n
length-drop zero xs = omega arith
length-drop (suc n) [] = omega arith
length-drop (suc n) (x ∷ xs) = omega (arith, length-drop n xs)

take-drop : (n : ℕ) (xs : List ℕ) → take n xs ++ drop n xs ≡ xs
take-drop zero xs = refl
take-drop (suc n) [] = refl
take-drop (suc n) (x ∷ xs) = ap (◌∷◌ x) (take-drop n xs)

bytes_of-reader_of : (n : ℕ) (bs : List ℕ) → length bs ≤ n → bytes_of (reader_of n bs) ≡ bs
unfolding reader_of
bytes_of-reader_of n [] h = refl
bytes_of-reader_of zero (b ∷ r) h = ground arith
bytes_of-reader_of (suc n) (b ∷ r) h =
    ap (λ t. take payload_max (b ∷ r) ++ t)
      (bytes_of-reader_of n (drop payload_max (b ∷ r))
        (omega (arith, length-drop payload_max (b ∷ r))))
    ∙ take-drop payload_max (b ∷ r)

-- A bulk transfer over a channel that other transfers share: where the messages that carry the
-- request's id are, in order, the frames that `sendBulk` produced, however messages of other ids,
-- or broken ones, stand between them, the sink that was registered for the request is still there
-- after all of the messages. It reports success exactly if every frame of the sender went out, and
-- then it has been written exactly the bytes that were sent; otherwise it reports nothing yet.
pub on_bulks-send_bulk :
    (flow : ℕ → Option PeerError) (id : ℕ) (bs : List ℕ) (sinks : Sinks) (ms : List (List ℕ))
    → id < 18446744073709551616
    → lookup id sinks ≡ some (new_sink none)
    → select (is_for id) ms ≡ (send_bulk flow id bs).0
    → (s : BulkSink) × (lookup id (on_bulks sinks ms) ≡ some s)
      × (s.done ≡ (elim (send_bulk flow id bs).1 [ none ↦ some none | some e ↦ none ]))
      × ((send_bulk flow id bs).1 ≡ none → s.written ≡ bs)
unfolding new_sink send_bulk send_reader
on_bulks-send_bulk flow id bs sinks ms fits there frames = (
  d.sink,
  lookup-on_bulks id sinks ms ∙ rw (there, frames) d.taken,
  d.received.reported,
  λ q. d.received.complete q ∙ bytes_of-reader_of (length bs) bs (omega arith),
)
  where
    d :
        Delivers flow id fits
          (new_sink none)
          (bytes_of (reader_of (length bs) bs))
          (send_bulk flow id bs)
    d =
        send_reader_lem flow id fits (reader_of (length bs) bs) 0 (new_sink none)
          record { writable = refl; waiting = refl }
