-- ===== src/Peer/Bulk/Receive.antt =====
-- The receiving half of the bulk channel in internal/peer/session.go: `bulkSink`, `signalSink`,
-- `failSink` and the `OnMessage` of `bindBulk`.
use p2p_hls.Prelude.{
  ℕ, ◌++◌, Bool, if◌then◌else◌, List, [], ◌∷◌, Map, lookup, insert, delete, nat_eq, Option, none,
  some,
}
use p2p_hls.Peer.Errors.{PeerError}
use p2p_hls.Peer.Bulk.{decode_bulk_frame}

-- `written` is what the sink's writer took, `write_error` what its next write fails with (none for a
-- buffer in memory); `done` is the channel of one terminal result: none while it is empty, then
-- success (none) or an error.
pub record BulkSink : Type 0 where
  pub written : List ℕ
  pub write_error : Option PeerError
  pub done : Option (Option PeerError)

abbrev pub Sinks : Type 0
Sinks = Map ℕ BulkSink

-- The send that never blocks: dropped if a result is there.
unfoldable pub signal_sink : BulkSink → Option PeerError → BulkSink
signal_sink s result = elim s.done [ none ↦ record s { done = some result } | some r ↦ s ]

unfoldable pub new_sink : Option PeerError → BulkSink
new_sink write_error = record { written = []; write_error = write_error; done = none }

-- One frame's payload and flag at its sink.
unfoldable pub absorb : BulkSink → Bool → List ℕ → BulkSink
absorb s last payload =
    let s' = record s { written = s.written ++ payload } in if last then signal_sink s' none else s'

-- What becomes of the sink: kept, or failed by its write. `failSink` signals the write's error to it,
-- which is dropped if an earlier result is there.
pub data Accepted : Type 0 where
  kept : BulkSink → Accepted
  failed : BulkSink → Accepted

-- `if len(payload) > 0`: nothing is written for an empty payload.
unfoldable pub accept : BulkSink → Bool → List ℕ → Accepted
accept s last [] = kept (absorb s last [])
accept s last (b ∷ r) = elim s.write_error [
  | some e ↦ failed (signal_sink s (some e))
  | none ↦ kept (absorb s last (b ∷ r))
]

-- A sink whose write fails is unregistered. Its caller still holds it: it is given as well.
unfoldable pub settle_sink : Sinks → ℕ → Accepted → Sinks × Option (ℕ × BulkSink)
settle_sink sinks id (kept s) = (insert id s sinks, none)
settle_sink sinks id (failed s) = (delete id sinks, some (id, s))

unfoldable pub deliver_frame : Sinks → ℕ → Bool → List ℕ → Sinks × Option (ℕ × BulkSink)
deliver_frame sinks id last payload = elim (lookup id sinks) [
  | none ↦ (sinks, none)
  | some s ↦ settle_sink sinks id (accept s last payload)
]

unfoldable pub on_bulk : Sinks → List ℕ → Sinks × Option (ℕ × BulkSink)
on_bulk sinks raw = elim (decode_bulk_frame raw) [
  | none ↦ (sinks, none)
  | some (id, seq, last, payload) ↦ deliver_frame sinks id last payload
]

-- The sinks after a sequence of messages.
unfoldable pub on_bulks : Sinks → List (List ℕ) → Sinks
on_bulks sinks [] = sinks
on_bulks sinks (raw ∷ rs) = on_bulks (on_bulk sinks raw).0 rs
