-- ===== src/Peer/Bulk/Send.antt =====
-- `sendBulkReader`, `sendBulk` and `sendFrameFlow` of internal/peer/session.go.
-- A reader is the list of what its calls return. `flow` says for each frame whether the channel takes
-- it: none, or the error of a channel that is closed or stays full for ten seconds.
use p2p_hls.Prelude.{
  ℕ, zero, suc, ◌+◌, ◌%◌, Bool, true, false, List, [], ◌∷◌, length, take, drop, Option, none, some,
}
use p2p_hls.Peer.Errors.{PeerError}
use p2p_hls.Peer.Bulk.{encode_bulk_frame}

-- `FrameSize - bulkHeaderSize`
abbrev pub payload_max : ℕ
payload_max = 16371

-- What one `Read` returns: bytes (maybe none) and no error, `io.EOF`, or another error.
pub data Read : Type 0 where
  reads : List ℕ → Read
  ends : List ℕ → Read
  breaks : List ℕ → PeerError → Read

-- The frames that went out, and the error that ended the sending early.
abbrev pub Sent : Type 0
Sent = List (List ℕ) × Option PeerError

-- One frame, and what follows once it is out.
unfoldable pub send_frame : (ℕ → Option PeerError) → ℕ → ℕ → Bool → List ℕ → Sent → Sent
send_frame flow id seq last payload next = elim (flow seq) [
  | some e ↦ ([], some e)
  | none ↦ (encode_bulk_frame id (seq % 4294967296) last payload ∷ next.0, next.1)
]

-- `if n > 0`: a frame for the bytes of one `Read`, and what follows from the next number on.
unfoldable pub send_payload : (ℕ → Option PeerError) → ℕ → ℕ → List ℕ → (ℕ → Sent) → Sent
send_payload flow id seq [] next = next seq
send_payload flow id seq (b ∷ r) next = send_frame flow id seq false (b ∷ r) (next (seq + 1))

-- The loop of `sendBulkReader` from frame `seq` on. A list that runs out stands for `io.EOF`.
unfoldable pub send_reader : (ℕ → Option PeerError) → ℕ → ℕ → List Read → Sent
send_reader flow id seq [] = send_frame flow id seq true [] ([], none)
send_reader flow id seq (reads bs ∷ r) = send_payload flow id seq bs (λ k. send_reader flow id k r)
send_reader flow id seq (ends bs ∷ r) =
    send_payload flow id seq bs (λ k. send_frame flow id k true [] ([], none))
send_reader flow id seq (breaks bs e ∷ r) = send_payload flow id seq bs (λ k. ([], some e))

-- The reads of a `bytes.Reader` with a buffer of `payload_max` bytes; the fuel is the number of
-- bytes, of which each read takes at least one.
unfoldable pub reader_of : ℕ → List ℕ → List Read
reader_of fuel [] = ends [] ∷ []
reader_of zero (b ∷ r) = ends [] ∷ []
reader_of (suc fuel) (b ∷ r) =
    reads (take payload_max (b ∷ r)) ∷ reader_of fuel (drop payload_max (b ∷ r))

unfoldable pub send_bulk : (ℕ → Option PeerError) → ℕ → List ℕ → Sent
send_bulk flow id bs = send_reader flow id 0 (reader_of (length bs) bs)
