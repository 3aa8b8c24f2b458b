-- ===== src/Peer/Session/Fates.antt =====
-- The fates of a node's requests: what the tables of a session stand for. A request is in one of five
-- states, and each event of the session moves the request that it names.
pub mod Slots
pub mod Effects
pub mod Moves
pub mod Simulation
use p2p_hls.Prelude.{
  ℕ, ◌+◌, ◌%◌, ◌<◌, ◌≤◌, ◌≡◌, refl, sym, ap, subst, ◌∙◌, Bool, true, false, not, ◌&&◌,
  if◌then◌else◌, ◌==◌, ==_iff, nat_eq, Bool-cases, Option-cases, inl, inr, List, [], ◌∷◌, length,
  Option, none, some, Map, has, has-select, select, lookup, insert, delete, lookup-insert,
  lookup-delete, arith,
}
use p2p_hls.Peer.Errors.{PeerError, Status, status_err}
use p2p_hls.Peer.Envelope.{Envelope, Body, failure}
use p2p_hls.Peer.Bulk.{decode_bulk_frame}
use p2p_hls.Peer.Bulk.Receive.{
  BulkSink, Sinks, new_sink, signal_sink, on_bulk, deliver_frame, settle_sink, Accepted, kept,
  failed, accept,
}
use p2p_hls.Peer.Session.{Conn, send}
use p2p_hls.Peer.Session.Calls.{
  next_id, unregister, begin_call, deliver, deliver_error, failure_of, on_reply, begin_fetch,
  settle, on_frame, Outcome, reply, transferred, transfer_failed, sink_outcome, fetch_outcome,
  outcome, end_fetch, return_with, collect,
}

-- No request, or one that is over; a call at an empty channel; one whose reply has come; a transfer
-- with its sink; and one whose sink could not be written.
pub data Fate : Type 0 where
  idle waiting : Fate
  replied : Envelope → Fate
  fetching : BulkSink → Fate
  lost : BulkSink → Fate

-- What happens at a session: a request begins or its caller gives up, a message comes in on one of
-- the channels, a caller reads its channel.
pub data Event : Type 0 where
  calls : Body → Event
  fetches : Body → Option PeerError → Event
  receives : Envelope → Event
  receives_frame : List ℕ → Event
  collects : ℕ → Event
  call_gives_up : ℕ → Event
  fetch_gives_up : ℕ → Event

-- The event at the session, with what a caller that reads finds.
unfoldable pub step : Conn → Event → Conn × Option Outcome
step c (calls body) = ((begin_call c body).0, none)
step c (fetches body write_error) = ((begin_fetch c body write_error).0, none)
step c (receives env) = (on_reply c env, none)
step c (receives_frame raw) = (on_frame c raw, none)
step c (collects id) = collect c id
step c (call_gives_up id) = (unregister id c, none)
step c (fetch_gives_up id) = (end_fetch id c, none)

unfoldable pub run : Conn → List Event → Conn × List (Option Outcome)
run c [] = (c, [])
run c (e ∷ es) = let (c', o) = step c e in let (c'', os) = run c' es in (c'', o ∷ os)

-- The abstract view: how many requests there were, and the fate of each.
pub record Ledger : Type 0 where
  pub count : ℕ
  pub fate : ℕ → Fate

-- What a message on the control channel does to the request whose id it has.
unfoldable pub hear : Envelope → Fate → Fate
hear env idle = idle
hear env waiting = replied env
hear env (replied first) = replied first
hear env (fetching s) = elim (failure_of env.body) [
  | some e ↦ fetching (signal_sink s (some e))
  | none ↦ fetching s
]
hear env (lost e) = lost e

unfoldable pub accepted_fate : Accepted → Fate
accepted_fate (kept s) = fetching s
accepted_fate (failed s) = lost s

unfoldable pub hear_frame : Bool → List ℕ → Fate → Fate
hear_frame last payload (fetching s) = accepted_fate (accept s last payload)
hear_frame last payload idle = idle
hear_frame last payload waiting = waiting
hear_frame last payload (replied env) = replied env
hear_frame last payload (lost e) = lost e

unfoldable pub found : Fate → Option Outcome
found idle = none
found waiting = none
found (replied env) = some (reply env)
found (fetching s) = sink_outcome s
found (lost s) = sink_outcome s

unfoldable pub call_over : Fate → Fate
call_over waiting = idle
call_over (replied env) = idle
call_over idle = idle
call_over (fetching s) = fetching s
call_over (lost e) = lost e

unfoldable pub fetch_over : Fate → Fate
fetch_over (fetching s) = idle
fetch_over (lost e) = idle
fetch_over idle = idle
fetch_over waiting = waiting
fetch_over (replied env) = replied env

-- One request's fate changed by `f`.
unfoldable pub at : ℕ → (Fate → Fate) → (ℕ → Fate) → ℕ → Fate
at id f fate n = if id == n then f (fate n) else fate n

-- The request that begins, if it can be sent.
unfoldable pub begin : (Envelope → Option PeerError) → Body → Fate → Ledger → Ledger
begin sending body first l = elim (sending record { request_id = l.count + 1; body = body }) [
  | some e ↦ record { count = l.count + 1; fate = l.fate }
  | none ↦ record { count = l.count + 1; fate = at (l.count + 1) (λ f. first) l.fate }
]

unfoldable pub ledger_step :
    (Envelope → Option PeerError) → Ledger → Event → Ledger × Option Outcome
ledger_step sending l (calls body) = (begin sending body waiting l, none)
ledger_step sending l (fetches body write_error) =
    (begin sending body (fetching (new_sink write_error)) l, none)
ledger_step sending l (receives env) =
    (record l { fate = at env.request_id (hear env) l.fate }, none)
ledger_step sending l (receives_frame raw) = elim (decode_bulk_frame raw) [
  | none ↦ (l, none)
  | some (id, seq, last, payload) ↦
      (record l { fate = at id (hear_frame last payload) l.fate }, none)
]
ledger_step sending l (collects id) = elim (found (l.fate id)) [
  | none ↦ (l, none)
  | some o ↦ (record l { fate = at id (λ f. idle) l.fate }, some o)
]
ledger_step sending l (call_gives_up id) = (record l { fate = at id call_over l.fate }, none)
ledger_step sending l (fetch_gives_up id) = (record l { fate = at id fetch_over l.fate }, none)

unfoldable pub ledger_run :
    (Envelope → Option PeerError) → Ledger → List Event → Ledger × List (Option Outcome)
ledger_run sending l [] = (l, [])
ledger_run sending l (e ∷ es) =
    let (l', o) = ledger_step sending l e in
    let (l'', os) = ledger_run sending l' es in (l'', o ∷ os)
