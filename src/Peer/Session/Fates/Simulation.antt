-- ===== src/Peer/Session/Fates/Simulation.antt =====
-- The tables of a session implement the ledger of fates.
use p2p_hls.Prelude.{
  ℕ, ◌+◌, ◌<◌, ◌≡◌, refl, ap, ap₂, ◌∙◌, true, if◌then◌else◌, ◌==◌, ==_iff, nat_eq, Bool-cases,
  Option-cases, inl, inr, List, [], ◌∷◌, length, Option, none, some, arith,
}
use p2p_hls.Peer.Errors.{PeerError}
use p2p_hls.Peer.Envelope.{Envelope, Body}
use p2p_hls.Peer.Bulk.Receive.{new_sink}
use p2p_hls.Peer.Session.{Conn, send}
use p2p_hls.Peer.Session.Calls.{
  next_id, unregister, register_call, register_fetch, unregister_fetch,
}
use p2p_hls.Peer.Session.Fates.{
  Fate, idle, waiting, fetching, Event, calls, fetches, receives, receives_frame, collects,
  call_gives_up, fetch_gives_up, step, run, Ledger, at, begin, ledger_step, ledger_run,
}
use p2p_hls.Peer.Session.Fates.Slots.{
  Slots, slots, slots-register_call, slots-unsent_call, slots-register_fetch, slots-unsent_fetch,
}
use p2p_hls.Peer.Session.Fates.Effects.{
  begin_call-sent, begin_call-unsent, begin_fetch-sent, begin_fetch-unsent,
}
use p2p_hls.Peer.Session.Fates.Moves.{
  entries, Implements, on_reply-moves, call_over-moves, fetch_over-moves, Simulates,
  collect-Simulates, frame-Simulates,
}

module _ (sending : Envelope → Option PeerError) where
  begun :
      {c : Conn} {l : Ledger} (c' : Conn) (g : Slots → Slots) (x : Fate)
      → Implements sending c l
      → c'.issued ≡ l.count + 1
      → c'.control ≡ c.control
      → ((n : ℕ) → slots c' n ≡ (if (l.count + 1) == n then g (slots c n) else slots c n))
      → g (entries idle) ≡ entries x
      → Implements sending c'
          record { count = l.count + 1; fate = at (l.count + 1) (λ f. x) l.fate }
  unfolding at send
  begun {c} {l} c' g x i count control h e = record {
    same_count = count;
    same = λ n. elim (Bool-cases ((l.count + 1) == n)) [
      | inl q ↦
          let new =
            i.same n ∙ ap entries (i.fresh n (omega (arith, (==_iff (l.count + 1) n).0 q))) in
          h n ∙ rw (q, at) (ap g new ∙ e)
      | inr q ↦ h n ∙ rw (q, at) (i.same n)
    ];
    fresh = λ n above. elim (Bool-cases ((l.count + 1) == n)) [
      | inl q ↦ absurd (omega (arith, (==_iff (l.count + 1) n).0 q))
      | inr q ↦ rw (q, at) (i.fresh n (omega arith))
    ];
    channel = λ env. rw control (i.channel env);
  }

  unsent :
      {c : Conn} {l : Ledger} (c' : Conn)
      → Implements sending c l
      → c'.issued ≡ l.count + 1
      → c'.control ≡ c.control
      → ((n : ℕ) → slots c' n ≡ slots c n)
      → Implements sending c' record { count = l.count + 1; fate = l.fate }
  unfolding send
  unsent {c} {l} c' i count control h = record {
    same_count = count;
    same = λ n. h n ∙ i.same n;
    fresh = λ n above. i.fresh n (omega arith);
    channel = λ env. rw control (i.channel env);
  }

  next_id-count :
      {c : Conn} {l : Ledger}
      → Implements sending c l
      → l.count + 1 < 18446744073709551616
      → next_id c ≡ l.count + 1
  unfolding next_id
  next_id-count i fits = omega (arith, i.same_count)

  -- The new id has no entries yet.
  new_slots :
      {c : Conn} {l : Ledger} (n : ℕ)
      → Implements sending c l
      → ((l.count + 1) == n) ≡ true
      → slots c n ≡ entries idle
  new_slots {c} {l} n i q =
      i.same n ∙ ap entries (i.fresh n (omega (arith, (==_iff (l.count + 1) n).0 q)))

  call-Simulates :
      {c : Conn} {l : Ledger} (body : Body)
      → Implements sending c l
      → l.count + 1 < 18446744073709551616
      → Simulates sending c l (calls body)
  unfolding Simulates step ledger_step begin register_call unregister
  call-Simulates {c} {l} body i fits =
      let id = next_id-count i fits in
      let sent = i.channel record { request_id = l.count + 1; body = body } in
      elim (Option-cases (sending record { request_id = l.count + 1; body = body })) [
        | inl q ↦
            rw (begin_call-sent c body (l.count + 1) id (sent ∙ q), q, begin)
              (
                refl,
                begun (register_call (l.count + 1) c) (λ s. (true, some none, s.2, s.3)) waiting i
                    refl refl (λ n. slots-register_call (l.count + 1) n c) refl,
                omega arith,
              )
        | inr (e, q) ↦
            rw (begin_call-unsent c body (l.count + 1) e id (sent ∙ q), q, begin)
              (
                refl,
                unsent (unregister (l.count + 1) (register_call (l.count + 1) c)) i refl refl
                    (λ n. slots-unsent_call (l.count + 1) n c (new_slots n i)),
                omega arith,
              )
      ]

  fetch-Simulates :
      {c : Conn} {l : Ledger} (body : Body) (w : Option PeerError)
      → Implements sending c l
      → l.count + 1 < 18446744073709551616
      → Simulates sending c l (fetches body w)
  unfolding Simulates step ledger_step begin register_fetch unregister_fetch
  fetch-Simulates {c} {l} body w i fits =
      let id = next_id-count i fits in
      let sent = i.channel record { request_id = l.count + 1; body = body } in
      elim (Option-cases (sending record { request_id = l.count + 1; body = body })) [
        | inl q ↦
            rw (begin_fetch-sent c body w (l.count + 1) id (sent ∙ q), q, begin)
              (
                refl,
                begun (register_fetch (l.count + 1) w c) (λ s. (s.0, s.1, some (new_sink w), s.3))
                    (fetching (new_sink w)) i refl refl
                    (λ n. slots-register_fetch (l.count + 1) n w c) refl,
                omega arith,
              )
        | inr (e, q) ↦
            rw (begin_fetch-unsent c body w (l.count + 1) e id (sent ∙ q), q, begin)
              (
                refl,
                unsent (unregister_fetch (l.count + 1) (register_fetch (l.count + 1) w c)) i refl
                    refl (λ n. slots-unsent_fetch (l.count + 1) n w c (new_slots n i)),
                omega arith,
              )
      ]

  step-Simulates :
      {c : Conn} {l : Ledger} (e : Event)
      → Implements sending c l
      → l.count + 1 < 18446744073709551616
      → Simulates sending c l e
  unfolding Simulates step ledger_step
  step-Simulates (calls body) i fits = call-Simulates body i fits
  step-Simulates (fetches body w) i fits = fetch-Simulates body w i fits
  step-Simulates (receives env) i fits = (refl, on_reply-moves sending env i, omega arith)
  step-Simulates (receives_frame raw) i fits = frame-Simulates sending raw i
  step-Simulates (collects id) i fits = collect-Simulates sending id i
  step-Simulates (call_gives_up id) i fits = (refl, call_over-moves sending id i, omega arith)
  step-Simulates (fetch_gives_up id) i fits = (refl, fetch_over-moves sending id i, omega arith)

-- Refinement: a session's tables, the registered ids, the callers' channels, the sinks of transfers
-- and their errors, implement the ledger in which each request has one fate. Over every sequence of
-- events, requests that begin and are or are not sent, replies, errors and bulk frames under any ids
-- and in any order, callers that read or give up, the callers find what the ledger says, in the same
-- order, and afterwards the tables hold of each id what the ledger says, if they did before and the
-- counter of request ids does not wrap around 64 bits on the way.
pub run-ledger_run :
    (sending : Envelope → Option PeerError) (c : Conn) (l : Ledger) (es : List Event)
    → Implements sending c l
    → l.count + length es < 18446744073709551616
    → ((run c es).1 ≡ (ledger_run sending l es).1)
      × Implements sending (run c es).0 (ledger_run sending l es).0
unfolding run ledger_run Simulates
run-ledger_run sending c l [] i fits = (refl, i)
run-ledger_run sending c l (e ∷ es) i fits =
    let s = step-Simulates sending e i (omega arith) in
    let r =
      run-ledger_run sending (step c e).0 (ledger_step sending l e).0 es s.1 (omega (arith, s.2)) in
    (ap₂ (λ o os. o ∷ os) s.0 r.0, r.1)
