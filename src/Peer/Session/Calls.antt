-- ===== src/Peer/Session/Calls.antt =====
-- Requests that this node makes, in internal/peer/session.go: `call` and `deliver`, `fetchBulkTo` and
-- the sinks, as the steps at which a session's lock is taken or a caller's channel is read.
use p2p_hls.Prelude.{
  ℕ, ◌+◌, ◌%◌, not, if◌then◌else◌, ◌==◌, nat_eq, List, ◌∷◌, Option, none, some, has, select, lookup,
  insert, delete,
}
use p2p_hls.Peer.Errors.{PeerError, status_err}
use p2p_hls.Peer.Envelope.{Envelope, Body, failure}
use p2p_hls.Peer.Bulk.Receive.{BulkSink, Sinks, new_sink, signal_sink, on_bulk}
use p2p_hls.Peer.Session.{Conn, send}

-- `requestIDs.next`: the id of the next request, a uint64.
unfoldable pub next_id : Conn → ℕ
next_id c = (c.issued + 1) % 18446744073709551616

-- `delete(s.pending, id)` of a call that failed to send, or whose context ended (`<-ctx.Done()`): its
-- channel goes with it.
unfoldable pub unregister : ℕ → Conn → Conn
unregister id c = record c {
  pending = select (λ k. not (id == k)) c.pending;
  mail = delete id c.mail;
}

unfoldable pub register_call : ℕ → Conn → Conn
register_call id c = record c {
  issued = id;
  pending = id ∷ c.pending;
  mail = insert id none c.mail;
}

-- `call` up to its `select`: the id is registered before the request is sent, and taken back if it
-- cannot be.
unfoldable pub begin_call : Conn → Body → Conn × Option PeerError
begin_call c body =
    let id = next_id c in
    elim (send c record { request_id = id; body = body }) [
      | some e ↦ (unregister id (register_call id c), some e)
      | none ↦ (register_call id c, none)
    ]

-- `deliver`: who waits for the id is taken off the table, and given the reply.
unfoldable pub deliver : Conn → Envelope → Conn
deliver c env =
    if has env.request_id c.pending
    then record c {
      pending = select (λ k. not (env.request_id == k)) c.pending;
      mail = insert env.request_id (some env) c.mail;
    }
    else c

-- The case of `Envelope_Error`: to the transfer of that id if there is one, else to the call.
unfoldable pub deliver_error : Conn → Envelope → PeerError → Conn
deliver_error c env e = elim (lookup env.request_id c.bulk_sinks) [
  | some s ↦ record c { bulk_sinks = insert env.request_id (signal_sink s (some e)) c.bulk_sinks }
  | none ↦ deliver c env
]

-- The error of a message of the kind `Envelope_Error`.
unfoldable pub failure_of : Body → Option PeerError
failure_of (failure status detail) = some (status_err status detail)
failure_of other = none

-- A reply: an error, or the other kinds, which all go to `deliver`.
unfoldable pub on_reply : Conn → Envelope → Conn
on_reply c env = elim (failure_of env.body) [
  | some e ↦ deliver_error c env e
  | none ↦ deliver c env
]

unfoldable pub register_fetch : ℕ → Option PeerError → Conn → Conn
register_fetch id write_error c = record c {
  issued = id;
  bulk_sinks = insert id (new_sink write_error) c.bulk_sinks;
}

unfoldable pub unregister_fetch : ℕ → Conn → Conn
unregister_fetch id c = record c { bulk_sinks = delete id c.bulk_sinks }

-- `fetchBulkTo` up to its `select`, for a writer whose next write does `write_error`.
unfoldable pub begin_fetch : Conn → Body → Option PeerError → Conn × Option PeerError
begin_fetch c body write_error =
    let id = next_id c in
    elim (send c record { request_id = id; body = body }) [
      | some e ↦ (unregister_fetch id (register_fetch id write_error c), some e)
      | none ↦ (register_fetch id write_error c, none)
    ]

unfoldable pub settle : Conn → Sinks → Option (ℕ × BulkSink) → Conn
settle c sinks none = record c { bulk_sinks = sinks }
settle c sinks (some (id, s)) = record c { bulk_sinks = sinks; broken = insert id s c.broken }

-- A message of the bulk channel.
unfoldable pub on_frame : Conn → List ℕ → Conn
on_frame c raw = let (sinks, failed) = on_bulk c.bulk_sinks raw in settle c sinks failed

-- What a caller finds at its channel: a call's reply, or the end of a transfer with the bytes.
pub data Outcome : Type 0 where
  reply : Envelope → Outcome
  transferred : List ℕ → Outcome
  transfer_failed : PeerError → Outcome

unfoldable pub sink_outcome : BulkSink → Option Outcome
sink_outcome s = elim s.done [
  | none ↦ none
  | some none ↦ some (transferred s.written)
  | some (some e) ↦ some (transfer_failed e)
]

unfoldable pub fetch_outcome : Conn → ℕ → Option Outcome
fetch_outcome c id = elim (lookup id c.bulk_sinks) [
  | some s ↦ sink_outcome s
  | none ↦ elim (lookup id c.broken) [ none ↦ none | some s ↦ sink_outcome s ]
]

unfoldable pub outcome : Conn → ℕ → Option Outcome
outcome c id = elim (lookup id c.mail) [
  | some none ↦ none
  | some (some env) ↦ some (reply env)
  | none ↦ fetch_outcome c id
]

-- The `cleanup` of `fetchBulkTo`; what the writer took is the caller's.
unfoldable pub end_fetch : ℕ → Conn → Conn
end_fetch id c = record c { bulk_sinks = delete id c.bulk_sinks; broken = delete id c.broken }

-- The return of a request's caller with what it found.
unfoldable pub return_with : Conn → ℕ → Outcome → Conn
return_with c id (reply env) = record c { mail = delete id c.mail }
return_with c id (transferred bs) = end_fetch id c
return_with c id (transfer_failed e) = end_fetch id c

-- A caller reads its channel; it blocks while nothing is there.
unfoldable pub collect : Conn → ℕ → Conn × Option Outcome
collect c id = elim (outcome c id) [ none ↦ (c, none) | some o ↦ (return_with c id o, some o) ]
