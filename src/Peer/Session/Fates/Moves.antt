-- ===== src/Peer/Session/Fates/Moves.antt =====
-- A session and a ledger that it implements, at an event that comes from outside.
use p2p_hls.Prelude.{
  ℕ, ◌+◌, ◌<◌, ◌≤◌, ◌≡◌, refl, sym, ap, subst, ◌∙◌, Bool, true, false, if◌then◌else◌, ◌==◌, ==_iff,
  nat_eq, Bool-cases, Option-cases, inl, inr, List, Option, none, some, lookup-delete, arith,
}
use p2p_hls.Peer.Errors.{PeerError}
use p2p_hls.Peer.Envelope.{Envelope}
use p2p_hls.Peer.Bulk.{decode_bulk_frame}
use p2p_hls.Peer.Bulk.Receive.{on_bulk, deliver_frame, Accepted, kept, failed, accept}
use p2p_hls.Peer.Session.{Conn, send}
use p2p_hls.Peer.Session.Calls.{
  unregister, deliver, deliver_error, failure_of, on_reply, settle, on_frame, Outcome, reply,
  transferred, transfer_failed, sink_outcome, fetch_outcome, outcome, end_fetch, return_with,
  collect,
}
use p2p_hls.Peer.Session.Fates.{
  Fate, idle, waiting, replied, fetching, lost, Event, receives_frame, collects, step, Ledger, hear,
  accepted_fate, hear_frame, found, call_over, fetch_over, at, ledger_step,
}
use p2p_hls.Peer.Session.Fates.Slots.{
  Slots, slots, slots-unregister, slots-end_fetch, delivered, slots-deliver, errored,
  slots-deliver_error, settled, framed, slots-deliver_frame,
}
use p2p_hls.Peer.Session.Fates.Effects.{
  Keeps, deliver-Keeps, deliver_error-Keeps, settle-Keeps, return_with-Keeps,
}

-- The entries of a request with that fate.
abbrev pub entries : Fate → Slots
entries idle = (false, none, none, none)
entries waiting = (true, some none, none, none)
entries (replied env) = (false, some (some env), none, none)
entries (fetching s) = (false, none, some s, none)
entries (lost e) = (false, none, none, some e)

-- The session's tables hold of each request what the ledger says, and it sends on that channel.
pub record Implements (sending : Envelope → Option PeerError) (c : Conn) (l : Ledger) : Type 0 where
  pub same_count : c.issued ≡ l.count
  pub same : (n : ℕ) → slots c n ≡ entries (l.fate n)
  pub fresh : (n : ℕ) → l.count < n → l.fate n ≡ idle
  pub channel : (env : Envelope) → send c env ≡ sending env

module _ (sending : Envelope → Option PeerError) where
  -- An operation on the entries of one id, and what it does to a fate.
  moved :
      {c : Conn} {l : Ledger} (c' : Conn) (id : ℕ) (g : Slots → Slots) (f : Fate → Fate)
      → Implements sending c l
      → Keeps c c'
      → ((n : ℕ) → slots c' n ≡ (if id == n then g (slots c n) else slots c n))
      → g (entries (l.fate id)) ≡ entries (f (l.fate id))
      → (l.fate id ≡ idle → f idle ≡ idle)
      → Implements sending c' (record l { fate = at id f l.fate })
  unfolding at send
  moved {c} {l} c' id g f i k h e still = record {
    same_count = k.count ∙ i.same_count;
    same = λ n. elim (Bool-cases (id == n)) [
      | inl q ↦
          let here =
            subst (λ j. g (entries (l.fate j)) ≡ entries (f (l.fate j))) ((==_iff id n).0 q) e in
          h n ∙ rw (q, at) (ap g (i.same n) ∙ here)
      | inr q ↦ h n ∙ rw (q, at) (i.same n)
    ];
    fresh = λ n above. elim (Bool-cases (id == n)) [
      | inl q ↦
          let at_id = subst (λ j. l.fate j ≡ idle) (sym ((==_iff id n).0 q)) (i.fresh n above) in
          rw (q, at) (ap f (i.fresh n above) ∙ still at_id)
      | inr q ↦ rw (q, at) (i.fresh n above)
    ];
    channel = λ env. rw k.control (i.channel env);
  }

  -- The messages and the ends of requests, at the fates.
  delivered-entries :
      (env : Envelope) (x : Fate)
      → failure_of env.body ≡ none
      → delivered env (entries x) ≡ entries (hear env x)
  unfolding hear
  delivered-entries env idle q = refl
  delivered-entries env waiting q = refl
  delivered-entries env (replied first) q = refl
  delivered-entries env (fetching s) q = rw (q, hear) refl
  delivered-entries env (lost e) q = refl

  errored-entries :
      (env : Envelope) (e : PeerError) (x : Fate)
      → failure_of env.body ≡ some e
      → errored env e (entries x) ≡ entries (hear env x)
  unfolding hear
  errored-entries env e idle q = refl
  errored-entries env e waiting q = refl
  errored-entries env e (replied first) q = refl
  errored-entries env e (fetching s) q = rw (q, hear) refl
  errored-entries env e (lost x) q = refl

  framed-entries :
      (last : Bool) (payload : List ℕ) (x : Fate)
      → framed last payload (entries x) ≡ entries (hear_frame last payload x)
  unfolding hear_frame accepted_fate
  framed-entries last payload idle = refl
  framed-entries last payload waiting = refl
  framed-entries last payload (replied env) = refl
  framed-entries last payload (fetching s) = into (accept s last payload)
    where
      into : (a : Accepted) → settled a (false, none, some s, none) ≡ entries (accepted_fate a)
      into (kept r) = refl
      into (failed e) = refl
  framed-entries last payload (lost e) = refl

  pub on_reply-moves :
      {c : Conn} {l : Ledger} (env : Envelope)
      → Implements sending c l
      → Implements sending
          (on_reply c env)
          (record l { fate = at env.request_id (hear env) l.fate })
  unfolding on_reply hear
  on_reply-moves {c} {l} env i = elim (Option-cases (failure_of env.body)) [
    | inl q ↦
        rw (q, on_reply)
          (moved (deliver c env) env.request_id (delivered env) (hear env) i (deliver-Keeps env c)
            (λ n. slots-deliver env n c) (delivered-entries env (l.fate env.request_id) q)
            (λ w. refl))
    | inr (e, q) ↦
        rw (q, on_reply)
          (moved (deliver_error c env e) env.request_id (errored env e) (hear env) i
            (deliver_error-Keeps env e c) (λ n. slots-deliver_error env e n c)
            (errored-entries env e (l.fate env.request_id) q) (λ w. refl))
  ]

  pub call_over-moves :
      {c : Conn} {l : Ledger} (id : ℕ)
      → Implements sending c l
      → Implements sending (unregister id c) (record l { fate = at id call_over l.fate })
  unfolding call_over unregister
  call_over-moves {c} {l} id i =
      moved (unregister id c) id (λ s. (false, none, s.2, s.3)) call_over i
        record { count = refl; control = refl } (λ n. slots-unregister id n c) (over (l.fate id))
        (λ w. refl)
    where
      over :
          (x : Fate)
          → ◌≡◌ {A = Slots} (false, none, (entries x).2, (entries x).3) (entries (call_over x))
      over idle = refl
      over waiting = refl
      over (replied env) = refl
      over (fetching s) = refl
      over (lost e) = refl

  pub fetch_over-moves :
      {c : Conn} {l : Ledger} (id : ℕ)
      → Implements sending c l
      → Implements sending (end_fetch id c) (record l { fate = at id fetch_over l.fate })
  unfolding fetch_over end_fetch
  fetch_over-moves {c} {l} id i =
      moved (end_fetch id c) id (λ s. (s.0, s.1, none, none)) fetch_over i
        record { count = refl; control = refl } (λ n. slots-end_fetch id n c) (over (l.fate id))
        (λ w. refl)
    where
      over :
          (x : Fate)
          → ◌≡◌ {A = Slots} ((entries x).0, (entries x).1, none, none) (entries (fetch_over x))
      over idle = refl
      over waiting = refl
      over (replied env) = refl
      over (fetching s) = refl
      over (lost e) = refl

  -- What a caller finds.
  outcome-found : (c : Conn) (id : ℕ) (x : Fate) → slots c id ≡ entries x → outcome c id ≡ found x
  unfolding outcome fetch_outcome found
  outcome-found c id idle e =
      rw (ap (λ s. s.1) e, outcome, ap (λ s. s.2) e, fetch_outcome, ap (λ s. s.3) e) refl
  outcome-found c id waiting e = rw (ap (λ s. s.1) e, outcome) refl
  outcome-found c id (replied env) e = rw (ap (λ s. s.1) e, outcome) refl
  outcome-found c id (fetching s) e =
      rw (ap (λ s. s.1) e, outcome, ap (λ s. s.2) e, fetch_outcome) refl
  outcome-found c id (lost x) e =
      rw (ap (λ s. s.1) e, outcome, ap (λ s. s.2) e, fetch_outcome, ap (λ s. s.3) e) refl

  returned : Outcome → Slots → Slots
  returned (reply env) (p, m, s, b) = (p, none, s, b)
  returned (transferred bs) (p, m, s, b) = (p, m, none, none)
  returned (transfer_failed e) (p, m, s, b) = (p, m, none, none)

  slots-return_with :
      (c : Conn) (id n : ℕ) (o : Outcome)
      → slots (return_with c id o) n ≡ (if id == n then returned o (slots c n) else slots c n)
  unfolding return_with returned
  slots-return_with c id n (reply env) = elim (Bool-cases (id == n)) [
    | inl q ↦ rw (lookup-delete id n c.mail, q) refl
    | inr q ↦ rw (lookup-delete id n c.mail, q) refl
  ]
  slots-return_with c id n (transferred bs) = slots-end_fetch id n c
  slots-return_with c id n (transfer_failed e) = slots-end_fetch id n c

  returned-entries :
      (x : Fate) (o : Outcome) → found x ≡ some o → returned o (entries x) ≡ entries idle
  unfolding returned found sink_outcome
  returned-entries idle o e = ground arith
  returned-entries waiting o e = ground arith
  returned-entries (replied env) (reply r) e = refl
  returned-entries (replied env) (transferred bs) e = ground arith
  returned-entries (replied env) (transfer_failed x) e = ground arith
  returned-entries (fetching s) (reply r) e = ground arith
  returned-entries (fetching s) (transferred bs) e = refl
  returned-entries (fetching s) (transfer_failed x) e = refl
  returned-entries (lost y) (reply r) e = ground arith
  returned-entries (lost y) (transferred bs) e = refl
  returned-entries (lost y) (transfer_failed x) e = refl

  -- One event.
  unfoldable pub Simulates : Conn → Ledger → Event → Type 0
  Simulates c l e =
      ((step c e).1 ≡ (ledger_step sending l e).1)
      × Implements sending (step c e).0 (ledger_step sending l e).0
      × ((ledger_step sending l e).0.count ≤ l.count + 1)

  pub collect-Simulates :
      {c : Conn} {l : Ledger} (id : ℕ) → Implements sending c l → Simulates c l (collects id)
  unfolding Simulates step ledger_step collect
  collect-Simulates {c} {l} id i =
      let o = outcome-found c id (l.fate id) (i.same id) in
      elim (Option-cases (found (l.fate id))) [
        | inl q ↦ let q' = o ∙ q in rw (q, q', collect, ledger_step) (refl, i, omega arith)
        | inr (x, q) ↦
            let q' = o ∙ q in
            rw (q, q', collect, ledger_step)
              (
                refl,
                moved (return_with c id x) id (returned x) (λ f. idle) i (return_with-Keeps c id x)
                    (λ n. slots-return_with c id n x) (returned-entries (l.fate id) x q)
                    (λ w. refl),
                omega arith,
              )
      ]

  pub frame-Simulates :
      {c : Conn} {l : Ledger} (raw : List ℕ)
      → Implements sending c l
      → Simulates c l (receives_frame raw)
  unfolding Simulates step ledger_step on_frame on_bulk settle hear_frame
  frame-Simulates {c} {l} raw i = elim (Option-cases (decode_bulk_frame raw)) [
    | inl q ↦ rw (q, on_frame, on_bulk, ledger_step) (refl, i, omega arith)
    | inr ((id, seq, last, payload), q) ↦
        rw (q, on_frame, on_bulk, ledger_step)
          (
            refl,
            moved
                (settle c (deliver_frame c.bulk_sinks id last payload).0
                  (deliver_frame c.bulk_sinks id last payload).1)
                id (framed last payload) (hear_frame last payload) i (settle-Keeps c _ _)
                (λ n. slots-deliver_frame id n last payload c)
                (framed-entries last payload (l.fate id)) (λ w. refl),
            omega arith,
          )
  ]
  -- A request that begins under the next id.
