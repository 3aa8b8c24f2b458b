-- ===== src/Swarm/Haves.antt =====
-- internal/swarm/haves.go: the Segments that this node holds, and the bitmap that advertises them.
-- A bitmap is a list of bytes. `max - min` does not leave the range of an int.
pub mod Bits
pub mod RoundTrip
pub mod Window
use Prim.Native.Nat.{bit_and, bit_or}
use p2p_hls.Prelude.{
  ℕ, zero, suc, ◌+◌, ◌*◌, ◌/◌, ◌%◌, ◌^◌, Bool, true, false, ◌||◌, not, if◌then◌else◌, ltb, eqb, ℤ,
  pos, pos_part, ◌+ℤ◌, ◌-ℤ◌, ltb_ℤ, low_bits, List, [], ◌∷◌, ◌++◌, length, select, has, int_eq,
}
use p2p_hls.Swarm.Engine.{Swarm}

-- `haveEpoch++` on a uint64
abbrev pub next_epoch : ℕ → ℕ
next_epoch n = (n + 1) % 18446744073709551616

unfoldable pub set_have : Swarm → ℤ → Swarm
set_have s idx =
    if has idx s.have
    then s
    else record s { have = s.have ++ idx ∷ []; have_epoch = next_epoch s.have_epoch }

unfoldable pub have_segment : Swarm → ℤ → Bool
have_segment s idx = has idx s.have

abbrev pub outside : ℤ → ℤ → ℤ → Bool
outside min max idx = ltb_ℤ idx min || ltb_ℤ max idx

-- The engine after the call, and the evicted indices.
unfoldable pub retain : Swarm → ℤ → ℤ → Swarm × List ℤ
retain s min max =
    let evicted = select (outside min max) s.have in
    if ltb 0 (length evicted)
    then (
      record s {
        have = select (λ idx. not (has idx evicted)) s.have;
        have_epoch = next_epoch s.have_epoch;
      },
      evicted,
    )
    else (s, evicted)

-- The loop that finds the bounds; it starts from `math.MaxInt` and 0.
unfoldable pub bounds : ℤ → ℤ → List ℤ → ℤ × ℤ
bounds min max [] = (min, max)
bounds min max (idx ∷ r) =
    bounds (if ltb_ℤ idx min then idx else min) (if ltb_ℤ max idx then idx else max) r

-- `make([]byte, n)`
unfoldable pub zeros : ℕ → List ℕ
zeros zero = []
zeros (suc n) = 0 ∷ zeros n

-- `bits[i] |= b`
unfoldable pub or_at : List ℕ → ℕ → ℕ → List ℕ
or_at [] i b = []
or_at (x ∷ xs) zero b = bit_or x b ∷ xs
or_at (x ∷ xs) (suc i) b = x ∷ or_at xs i b

-- `bits[off/8] |= 1 << uint(off%8)`
unfoldable pub set_bit : List ℕ → ℕ → List ℕ
set_bit bits off = or_at bits (off / 8) (2 ^ (off % 8))

unfoldable pub set_bits : ℤ → List ℕ → List ℤ → List ℕ
set_bits min bits [] = bits
set_bits min bits (idx ∷ r) = set_bits min (set_bit bits (pos_part (idx -ℤ min))) r

-- The base (a uint32), the bitmap and the epoch.
unfoldable pub encode : List ℤ → ℕ → ℕ × List ℕ × ℕ
encode [] epoch = (0, [], epoch)
encode (idx ∷ r) epoch =
    let (min, max) = bounds (pos 9223372036854775807) (pos 0) (idx ∷ r) in
    (
      low_bits min % 4294967296,
      set_bits min (zeros (pos_part (max -ℤ min) / 8 + 1)) (idx ∷ r),
      epoch,
    )

unfoldable pub have_msg : Swarm → ℕ × List ℕ × ℕ
unfolding encode
have_msg s = encode s.have s.have_epoch

-- `bitmap[i/8]&(1<<uint(i%8)) != 0`
unfoldable pub byte_at : List ℕ → ℕ → ℕ
byte_at [] i = 0
byte_at (x ∷ xs) zero = x
byte_at (x ∷ xs) (suc i) = byte_at xs i

unfoldable pub test_bit : List ℕ → ℕ → Bool
test_bit bits i = not (eqb (bit_and (byte_at bits (i / 8)) (2 ^ (i % 8))) 0)

-- The loop of `decodeBitmap` with `n` rounds left, at bit `i`.
unfoldable pub decode_from : ℕ → List ℕ → ℕ → ℕ → List ℤ
decode_from base bitmap i zero = []
decode_from base bitmap i (suc n) =
    let rest = decode_from base bitmap (i + 1) n in
    if test_bit bitmap i then pos (base + i) ∷ rest else rest

unfoldable pub decode_bitmap : ℕ → List ℕ → List ℤ
decode_bitmap base bitmap = decode_from base bitmap 0 (length bitmap * 8)
