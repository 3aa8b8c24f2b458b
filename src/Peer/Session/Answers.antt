-- ===== src/Peer/Session/Answers.antt =====
-- Every request is answered once.
use p2p_hls.Prelude.{
  ℕ, ◌+◌, ◌%◌, ◌<◌, ◌≡◌, refl, ◌∙◌, Bool, true, false, if◌then◌else◌, ◌&&◌, Option-cases, inl, inr,
  List, [], ◌∷◌, length, append_nil, Option, none, some, arith, GoString,
}
use p2p_hls.Peer.Errors.{PeerError}
use p2p_hls.Peer.Envelope.{
  Envelope, Body, err_envelope, unset, handshake, ping, pong, browse, get_live_parties,
  access_granted, ack, catalog, live_parties, get_metadata, request_access, download, join_party,
  leave_party, title_meta, party_welcome, party_invite, failure, get_playlist, get_segment,
  playlist, party_state, party_audience, party_ended, party_danmaku, swarm_have, get_swarm_segment,
}
use p2p_hls.Peer.Bulk.{encode_bulk_frame, decode_bulk_frame}
use p2p_hls.Peer.Bulk.Frames.{decode-encode_bulk_frame}
use p2p_hls.Peer.Bulk.Send.{
  Read, reads, ends, breaks, Sent, send_frame, send_payload, send_reader, reader_of, send_bulk,
}
use p2p_hls.Peer.Session.{
  Conn, Result, ok, err, Handlers, RequestHandler, MediaHandler, PartyHandler, SwarmHandler, send,
  bulk_flow,
}
use p2p_hls.Peer.Session.Serve.{
  Out, sends, frames, spawns_media, spawns_swarm, MediaJob, segment_job, download_job, SwarmJob,
  put, answer_with, answer_done, refuse, handle_browse, handle_get_metadata,
  handle_get_live_parties, handle_request_access, handle_get_playlist, handle_join_party,
  handle_media_job, handle_swarm_job, run_media_job, run_swarm_job, transfer, transfer_bytes,
  transfer_file, transfer_swarm,
}
use p2p_hls.Peer.Session.Dispatch.{dispatch, on_envelope, run_out, run_outs, run_media, run_swarm}

-- The messages that ask for an answer.
abbrev pub is_request : Body → Bool
is_request (ping nonce) = true
is_request browse = true
is_request (get_metadata content_id) = true
is_request get_live_parties = true
is_request (request_access message) = true
is_request (get_playlist content_id name) = true
is_request (get_segment content_id name) = true
is_request (download content_id) = true
is_request (join_party content_id) = true
is_request (get_swarm_segment party_id rendition name) = true
is_request other = false

-- One, if the id passes the test.
abbrev pub one : (ℕ → Bool) → ℕ → ℕ
one p id = if p id then 1 else 0

-- The transfers that a sequence of frames ends whose id passes the test.
unfoldable pub ended : (ℕ → Bool) → List (List ℕ) → ℕ
ended p [] = 0
ended p (raw ∷ r) =
    (elim (decode_bulk_frame raw) [
      | none ↦ 0
      | some (id, seq, last, payload) ↦ if last then one p id else 0
    ])
    + ended p r

-- The answers that go out under an id which passes the test: envelopes and ends of transfers.
unfoldable pub answers : (ℕ → Bool) → List Out → ℕ
answers p [] = 0
answers p (sends env ∷ r) = one p env.request_id + answers p r
answers p (frames out ∷ r) = ended p out + answers p r
answers p (spawns_media id job ∷ r) = answers p r
answers p (spawns_swarm id job ∷ r) = answers p r

-- A sending and the error that tells of its failure make one answer.
record IsOne (p : ℕ → Bool) (id : ℕ) (sent : Sent) : Type 0 where
  count : ended p sent.0 + (elim sent.1 [ none ↦ 0 | some e ↦ one p id ]) ≡ one p id

module _ (p : ℕ → Bool) (flow : ℕ → Option PeerError) (id : ℕ)
    (fits : id < 18446744073709551616) where
  ended-frame :
      (seq : ℕ) (last : Bool) (payload : List ℕ) (r : List (List ℕ))
      → ended p (encode_bulk_frame id (seq % 4294967296) last payload ∷ r)
        ≡ (if last then one p id else 0) + ended p r
  unfolding ended
  ended-frame seq last payload r =
      rw (decode-encode_bulk_frame id (seq % 4294967296) last payload fits (omega arith), ended)
        refl

  send_frame-IsOne : (seq : ℕ) → IsOne p id (send_frame flow id seq true [] ([], none))
  unfolding send_frame ended
  send_frame-IsOne seq = elim (Option-cases (flow seq)) [
    | inl e ↦ rw (e, send_frame) record { count = omega (arith, ended-frame seq true [] []) }
    | inr (x, e) ↦ rw (e, send_frame) record { count = omega arith }
  ]

  send_payload-IsOne :
      (seq : ℕ) (bs : List ℕ) (next : ℕ → Sent)
      → ((k : ℕ) → IsOne p id (next k))
      → IsOne p id (send_payload flow id seq bs next)
  unfolding send_payload send_frame ended
  send_payload-IsOne seq [] next f = f seq
  send_payload-IsOne seq (b ∷ r) next f = elim (Option-cases (flow seq)) [
    | inl e ↦
        rw (e, send_frame)
          record {
            count =
                omega
                  (arith, ended-frame seq false (b ∷ r) (next (seq + 1)).0, (f (seq + 1)).count);
          }
    | inr (x, e) ↦ rw (e, send_frame) record { count = omega arith }
  ]

  send_reader-IsOne : (rs : List Read) (seq : ℕ) → IsOne p id (send_reader flow id seq rs)
  unfolding send_reader ended
  send_reader-IsOne [] seq = send_frame-IsOne seq
  send_reader-IsOne (reads bs ∷ r) seq =
      send_payload-IsOne seq bs (λ k. send_reader flow id k r) (send_reader-IsOne r)
  send_reader-IsOne (ends bs ∷ r) seq =
      send_payload-IsOne seq bs (λ k. send_frame flow id k true [] ([], none)) send_frame-IsOne
  send_reader-IsOne (breaks bs e ∷ r) seq =
      send_payload-IsOne seq bs (λ k. ([], some e)) (λ k. record { count = omega arith })

-- What went out is one answer to the request.
record IsAnswer (p : ℕ → Bool) (id : ℕ) (out : List Out) : Type 0 where
  number : answers p out ≡ one p id

-- One envelope under the request's id.
data Single (c : Conn) (id : ℕ) : List Out → Type 0 where
  single :
      {out : List Out} (body : Body)
      → out ≡ put c record { request_id = id; body = body }
      → Single c id out

answer_with-Single :
    {A : Type 0} (c : Conn) (id : ℕ) (body : A → Body) (r : Result A)
    → Single c id (answer_with c id body r)
unfolding answer_with err_envelope
answer_with-Single c id body (ok a) = single (body a) refl
answer_with-Single c id body (err e) = single _ refl

answer_done-Single : (c : Conn) (id : ℕ) (r : Option PeerError) → Single c id (answer_done c id r)
unfolding answer_done err_envelope
answer_done-Single c id none = single _ refl
answer_done-Single c id (some e) = single _ refl

refuse-Single : (c : Conn) (id : ℕ) → Single c id (refuse c id)
unfolding refuse err_envelope
refuse-Single c id = single _ refl

module _ {W : Type 0} (h : Handlers W) (c : Conn)
    (accepting : (env : Envelope) → send c env ≡ none) where
  put-sends : (env : Envelope) → put c env ≡ sends env ∷ []
  unfolding put
  put-sends env = rw (accepting env, put) refl

  Single-answers :
      (p : ℕ → Bool) (w : W) {id : ℕ} {out : List Out}
      → Single c id out
      → answers p (run_outs h c w out).1 ≡ one p id
  unfolding answers run_outs run_out
  Single-answers p w {id} (single body e) =
      rw (e, put-sends record { request_id = id; body = body }) (omega arith)

  transfer-answers :
      (p : ℕ → Bool) (id : ℕ) (sent : Sent)
      → IsOne p id sent
      → answers p (transfer c id sent) ≡ one p id
  unfolding transfer answers err_envelope
  transfer-answers p id (out, none) o = omega (arith, o.count)
  transfer-answers p id (out, some e) o =
      rw (put-sends (err_envelope id e)) (omega (arith, o.count))

  -- An error in place of a transfer.
  failed-answers :
      (p : ℕ → Bool) (id : ℕ) (e : PeerError) → answers p (put c (err_envelope id e)) ≡ one p id
  unfolding answers err_envelope
  failed-answers p id e = rw (put-sends (err_envelope id e)) (omega arith)

  module _ (p : ℕ → Bool) (id : ℕ) (fits : id < 18446744073709551616) where
    transfer_bytes-answers : (r : Result (List ℕ)) → answers p (transfer_bytes c id r) ≡ one p id
    unfolding transfer_bytes send_bulk
    transfer_bytes-answers (err e) = failed-answers p id e
    transfer_bytes-answers (ok bs) =
        transfer-answers p id (send_bulk (bulk_flow c) id bs)
          (send_reader-IsOne p (bulk_flow c) id fits (reader_of (length bs) bs) 0)

    transfer_file-answers : (r : Result (List Read)) → answers p (transfer_file c id r) ≡ one p id
    unfolding transfer_file
    transfer_file-answers (err e) = failed-answers p id e
    transfer_file-answers (ok rs) =
        transfer-answers p id (send_reader (bulk_flow c) id 0 rs)
          (send_reader-IsOne p (bulk_flow c) id fits rs 0)

    run_media_job-answers :
        (m : MediaHandler W) (job : MediaJob) (w : W)
        → answers p (run_media_job c m id job w).1 ≡ one p id
    unfolding run_media_job
    run_media_job-answers m (segment_job content_id name) w =
        transfer_bytes-answers (m.on_segment c.remote content_id name w).1
    run_media_job-answers m (download_job content_id) w =
        transfer_file-answers (m.on_open_file c.remote content_id w).1

    transfer_swarm-answers :
        (r : W × Result (List ℕ × (W → W))) → answers p (transfer_swarm c id r).1 ≡ one p id
    unfolding transfer_swarm transfer_bytes
    transfer_swarm-answers (w, err e) = failed-answers p id e
    transfer_swarm-answers (w, ok (bs, release)) = transfer_bytes-answers (ok bs)

    media-answers :
        (o : Option (MediaHandler W)) (w : W) (job : MediaJob)
        → h.media_handler ≡ o
        → answers p (run_outs h c w (handle_media_job c o id job)).1 ≡ one p id
    unfolding handle_media_job run_outs run_out run_media
    media-answers none w job e = Single-answers p w (refuse-Single c id)
    media-answers (some m) w job e =
        rw (e, append_nil (run_media_job c m id job w).1) (run_media_job-answers m job w)

    swarm-answers :
        (o : Option (SwarmHandler W)) (w : W) (job : SwarmJob)
        → h.swarm_handler ≡ o
        → answers p (run_outs h c w (handle_swarm_job c o id job)).1 ≡ one p id
    unfolding handle_swarm_job run_outs run_out run_swarm run_swarm_job
    swarm-answers none w job e = Single-answers p w (refuse-Single c id)
    swarm-answers (some m) w job e =
        rw
          (
            e,
            append_nil
                (transfer_swarm c id
                  (m.on_swarm_segment c.remote job.party_id job.rendition job.segment_name w)).1,
          )
          (transfer_swarm-answers
            (m.on_swarm_segment c.remote job.party_id job.rendition job.segment_name w))

    browse-Single : (o : Option (RequestHandler W)) (w : W) → Single c id (handle_browse c o id w).1
    unfolding handle_browse
    browse-Single none w = refuse-Single c id
    browse-Single (some m) w = answer_with-Single c id _ _

    get_metadata-Single :
        (o : Option (RequestHandler W)) (content_id : GoString) (w : W)
        → Single c id (handle_get_metadata c o id content_id w).1
    unfolding handle_get_metadata
    get_metadata-Single none content_id w = refuse-Single c id
    get_metadata-Single (some m) content_id w = answer_with-Single c id _ _

    get_live_parties-Single :
        (o : Option (RequestHandler W)) (w : W) → Single c id (handle_get_live_parties c o id w).1
    unfolding handle_get_live_parties
    get_live_parties-Single none w = refuse-Single c id
    get_live_parties-Single (some m) w = answer_with-Single c id _ _

    request_access-Single :
        (o : Option (RequestHandler W)) (message : GoString) (w : W)
        → Single c id (handle_request_access c o id message w).1
    unfolding handle_request_access
    request_access-Single none message w = refuse-Single c id
    request_access-Single (some m) message w = answer_done-Single c id _

    get_playlist-Single :
        (o : Option (MediaHandler W)) (content_id name : GoString) (w : W)
        → Single c id (handle_get_playlist c o id content_id name w).1
    unfolding handle_get_playlist
    get_playlist-Single none content_id name w = refuse-Single c id
    get_playlist-Single (some m) content_id name w = answer_with-Single c id _ _

    join_party-Single :
        (o : Option (PartyHandler W)) (content_id : GoString) (w : W)
        → Single c id (handle_join_party c o id content_id w).1
    unfolding handle_join_party
    join_party-Single none content_id w = refuse-Single c id
    join_party-Single (some m) content_id w = answer_with-Single c id _ _

    dispatch-answers :
        (w : W) (body : Body)
        → (let (c', w', out) = dispatch h c w id body in answers p (run_outs h c' w' out).1)
          ≡ (if is_request body then one p id else 0)
    unfolding dispatch answers run_outs
    dispatch-answers w (handshake version caps) = refl
    dispatch-answers w (ping nonce) = Single-answers p w (single (pong nonce) refl)
    dispatch-answers w browse = Single-answers p _ (browse-Single h.handler w)
    dispatch-answers w (get_metadata content_id) =
        Single-answers p _ (get_metadata-Single h.handler content_id w)
    dispatch-answers w get_live_parties = Single-answers p _ (get_live_parties-Single h.handler w)
    dispatch-answers w (request_access message) =
        Single-answers p _ (request_access-Single h.handler message w)
    dispatch-answers w (get_playlist content_id name) =
        Single-answers p _ (get_playlist-Single h.media_handler content_id name w)
    dispatch-answers w (get_segment content_id name) =
        media-answers h.media_handler w (segment_job content_id name) refl
    dispatch-answers w (download content_id) =
        media-answers h.media_handler w (download_job content_id) refl
    dispatch-answers w (join_party content_id) =
        Single-answers p _ (join_party-Single h.party_handler content_id w)
    dispatch-answers w (get_swarm_segment party_id rendition name) =
        swarm-answers h.swarm_handler w _ refl
    dispatch-answers w access_granted = refl
    dispatch-answers w (leave_party party_id) = refl
    dispatch-answers w (party_state s) = refl
    dispatch-answers w (party_audience members) = refl
    dispatch-answers w (party_invite invitation) = refl
    dispatch-answers w (party_ended party_id reason) = refl
    dispatch-answers w (party_danmaku party_id sender display text) = refl
    dispatch-answers w (swarm_have party_id rendition base bitmap epoch) = refl
    dispatch-answers w unset = refl
    dispatch-answers w (failure status detail) = refl
    dispatch-answers w (pong nonce) = refl
    dispatch-answers w (catalog titles) = refl
    dispatch-answers w (title_meta meta) = refl
    dispatch-answers w ack = refl
    dispatch-answers w (playlist content content_type complete) = refl
    dispatch-answers w (party_welcome welcome) = refl
    dispatch-answers w (live_parties parties) = refl

-- While the control channel takes messages, a message from the remote node is answered, once all that
-- it has started is run to its end, with exactly one answer under its own request id if it is a
-- request and with none otherwise: over every test `p` of ids, the error or reply envelopes and the
-- ends of bulk transfers that go out under an id with `p` are one if the message is a request whose
-- id has `p`, and else none. It holds with or without the handlers, whatever they return, and where
-- the bulk channel is missing or fails at any frame, for request ids of 64 bits.
pub on_envelope-answers :
    {W : Type 0} (h : Handlers W) (c : Conn) (w : W) (env : Envelope) (p : ℕ → Bool)
    → ((e : Envelope) → send c e ≡ none)
    → env.request_id < 18446744073709551616
    → (let (c', w', out) = on_envelope h c w env in answers p (run_outs h c' w' out).1)
      ≡ (if is_request env.body && p env.request_id then 1 else 0)
unfolding on_envelope
on_envelope-answers h c w env p accepting fits =
    dispatch-answers h c accepting p env.request_id fits w env.body
    ∙ both (is_request env.body) (p env.request_id)
  where
    both :
        (a b : Bool) → ◌≡◌ {A = ℕ} (if a then (if b then 1 else 0) else 0) (if a && b then 1 else 0)
    both true b = refl
    both false b = refl
