-- ===== src/Peer/Bulk.antt =====
-- internal/peer/bulk.go: the frames of the bulk channel. Bytes are numbers below 256.
pub mod Frames
pub mod Send
pub mod Receive
pub mod Transfer
use p2p_hls.Prelude.{
  ℕ, zero, suc, ◌+◌, ◌*◌, ◌/◌, ◌%◌, Bool, true, false, not, if◌then◌else◌, ltb, eqb, List, [], ◌∷◌,
  ◌++◌, length, take, drop, Option, none, some,
}

abbrev pub bulk_header_size : ℕ
bulk_header_size = 13

-- `binary.BigEndian.PutUint64` and `PutUint32`: the last `n` bytes of a number, the highest first.
unfoldable pub put_big_endian : ℕ → ℕ → List ℕ
put_big_endian zero v = []
put_big_endian (suc n) v = put_big_endian n (v / 256) ++ (v % 256) ∷ []

-- `binary.BigEndian.Uint64` and `Uint32`, after the bytes of `acc`.
unfoldable pub big_endian : ℕ → List ℕ → ℕ
big_endian acc [] = acc
big_endian acc (b ∷ r) = big_endian (acc * 256 + b) r

unfoldable pub encode_bulk_frame : ℕ → ℕ → Bool → List ℕ → List ℕ
encode_bulk_frame request_id seq last payload =
    put_big_endian 8 request_id ++ (put_big_endian 4 seq ++ ((if last then 1 else 0) ∷ payload))

-- The flag byte and the payload after it.
unfoldable pub flags_and_payload : List ℕ → Bool × List ℕ
flags_and_payload [] = (false, [])
flags_and_payload (b ∷ r) = (not (eqb (b % 2) 0), r)

unfoldable pub decode_bulk_frame : List ℕ → Option (ℕ × ℕ × Bool × List ℕ)
decode_bulk_frame raw =
    if ltb (length raw) bulk_header_size
    then none
    else (let (last, payload) = flags_and_payload (drop 12 raw) in
        some (big_endian 0 (take 8 raw), big_endian 0 (take 4 (drop 8 raw)), last, payload))
