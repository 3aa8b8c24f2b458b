-- ===== src/Swarm/Haves/Bits.antt =====
-- The bits of a bitmap: what `set_bit` sets and what `decode_bitmap` reads.
use Prim.Native.Nat.{bit_and, bit_or}
use p2p_hls.Prelude.{
  ℕ, zero, suc, ◌+◌, ◌-◌, ◌/◌, ◌%◌, ◌^◌, ◌<◌, ◌≡◌, refl, sym, ap, subst, ◌∙◌, Bool, true, false,
  ◌&&◌, ◌||◌, not, if◌then◌else◌, Bool-cases, inl, inr, ltb, leb, eqb, ℤ, pos, negsuc, pos_part,
  ◌-ℤ◌, List, [], ◌∷◌, length, All, has, int_eq, arith,
}
use p2p_hls.Swarm.Haves.{or_at, set_bit, set_bits, byte_at, test_bit, zeros, decode_from}

-- A test on every number under a bound.
each_under : (ℕ → Bool) → ℕ → Bool
each_under test zero = true
each_under test (suc k) = each_under test k && test k

at_each : (test : ℕ → Bool) (k j : ℕ) → j < k → each_under test k ≡ true → test j ≡ true
unfolding each_under
at_each test zero j small ok = absurd (omega arith)
at_each test (suc k) j small ok = ground (arith, at_each test k j)

abbrev byte_bit : ℕ → ℕ → Bool
byte_bit b k = not (eqb (bit_and b (2 ^ k)) 0)

abbrev same : Bool → Bool → Bool
same a b = if a then b else not b

same→eq : (a b : Bool) → same a b ≡ true → a ≡ b
same→eq a b h = ground arith

-- Setting bit k of a byte: it stays a byte, and bit j is set if it was or if j is k.
or_row : ℕ → ℕ → Bool
or_row b k =
    ltb (bit_or b (2 ^ k)) 256
    && each_under (λ j. same (byte_bit (bit_or b (2 ^ k)) j) (eqb k j || byte_bit b j)) 8

or_table : each_under (λ b. each_under (or_row b) 8) 256 ≡ true
unfolding each_under or_row
or_table = refl

or_row-true : (b k : ℕ) → b < 256 → k < 8 → or_row b k ≡ true
or_row-true b k hb hk =
    at_each (or_row b) 8 k hk (at_each (λ c. each_under (or_row c) 8) 256 b hb or_table)

or_byte :
    (b k j : ℕ)
    → b < 256
    → k < 8
    → j < 8
    → byte_bit (bit_or b (2 ^ k)) j ≡ (eqb k j || byte_bit b j)
unfolding or_row
or_byte b k j hb hk hj = same→eq _ _ (
    at_each (λ i. same (byte_bit (bit_or b (2 ^ k)) i) (eqb k i || byte_bit b i)) 8 j hj
      (and_right _ _ (or_row-true b k hb hk)))
  where
    and_right : (x y : Bool) → (x && y) ≡ true → y ≡ true
    and_right x y h = ground arith

or_byte-lt : (b k : ℕ) → b < 256 → k < 8 → bit_or b (2 ^ k) < 256
unfolding or_row
or_byte-lt b k hb hk = left _ _ _ (or_row-true b k hb hk)
  where
    left : (x n : ℕ) (y : Bool) → (ltb x n && y) ≡ true → x < n
    left x n y h = ground arith

abbrev pub IsBytes : List ℕ → Type 0
IsBytes = All (λ x. x < 256)

byte_at-lt : (bits : List ℕ) (i : ℕ) → IsBytes bits → byte_at bits i < 256
unfolding byte_at
byte_at-lt [] i h = omega arith
byte_at-lt (x ∷ xs) zero h = h.0
byte_at-lt (x ∷ xs) (suc i) h = byte_at-lt xs i h.1

or_at-IsBytes : (bits : List ℕ) (i k : ℕ) → k < 8 → IsBytes bits → IsBytes (or_at bits i (2 ^ k))
unfolding or_at
or_at-IsBytes [] i k hk h = tt
or_at-IsBytes (x ∷ xs) zero k hk h = (or_byte-lt x k h.0 hk, h.1)
or_at-IsBytes (x ∷ xs) (suc i) k hk h = (h.0, or_at-IsBytes xs i k hk h.1)

length-or_at : (bits : List ℕ) (i b : ℕ) → length (or_at bits i b) ≡ length bits
unfolding or_at
length-or_at [] i b = refl
length-or_at (x ∷ xs) zero b = refl
length-or_at (x ∷ xs) (suc i) b = ap suc (length-or_at xs i b)

byte_at-or_at :
    (bits : List ℕ) (i b j : ℕ)
    → i < length bits
    → byte_at (or_at bits i b) j ≡ (if eqb i j then bit_or (byte_at bits j) b else byte_at bits j)
unfolding byte_at or_at
byte_at-or_at [] i b j h = elim h [ ]
byte_at-or_at (x ∷ xs) zero b zero h = refl
byte_at-or_at (x ∷ xs) zero b (suc j) h = ground arith
byte_at-or_at (x ∷ xs) (suc i) b zero h = ground arith
byte_at-or_at (x ∷ xs) (suc i) b (suc j) h = byte_at-or_at xs i b j (omega arith) ∙ ground arith

-- Setting a bit inside the bitmap sets that bit and no other.
test_bit-set_bit :
    (bits : List ℕ) (off i : ℕ)
    → IsBytes bits
    → off / 8 < length bits
    → test_bit (set_bit bits off) i ≡ (eqb off i || test_bit bits i)
unfolding test_bit set_bit
test_bit-set_bit bits off i h room = elim (Bool-cases (eqb (off / 8) (i / 8))) [
  | inl e ↦
      rw (byte_at-or_at bits (off / 8) (2 ^ (off % 8)) (i / 8) room, e)
        (or_byte (byte_at bits (i / 8)) (off % 8) (i % 8) (byte_at-lt bits (i / 8) h) (omega arith)
            (omega arith)
          ∙ ground arith)
  | inr e ↦ rw (byte_at-or_at bits (off / 8) (2 ^ (off % 8)) (i / 8) room, e) (ground arith)
]

set_bit-IsBytes : (bits : List ℕ) (off : ℕ) → IsBytes bits → IsBytes (set_bit bits off)
unfolding set_bit
set_bit-IsBytes bits off h = or_at-IsBytes bits (off / 8) (off % 8) (omega arith) h

length-set_bit : (bits : List ℕ) (off : ℕ) → length (set_bit bits off) ≡ length bits
unfolding set_bit
length-set_bit bits off = length-or_at bits (off / 8) (2 ^ (off % 8))

-- Whether one of the indices is `i` above the base.
unfoldable pub offset_in : ℤ → ℕ → List ℤ → Bool
offset_in min i [] = false
offset_in min i (idx ∷ r) = eqb (pos_part (idx -ℤ min)) i || offset_in min i r

-- After the loop a bit is set if it was or if it is the offset of one of the indices.
pub test_bit-set_bits :
    (min : ℤ) (bits : List ℕ) (l : List ℤ) (i : ℕ)
    → IsBytes bits
    → All (λ idx. pos_part (idx -ℤ min) / 8 < length bits) l
    → test_bit (set_bits min bits l) i ≡ (offset_in min i l || test_bit bits i)
unfolding set_bits offset_in
test_bit-set_bits min bits [] i h room = refl
test_bit-set_bits min bits (idx ∷ r) i h room =
    let off = pos_part (idx -ℤ min) in
    test_bit-set_bits min (set_bit bits off) r i (set_bit-IsBytes bits off h)
      (subst (λ n. All (λ j. pos_part (j -ℤ min) / 8 < n) r) (sym (length-set_bit bits off)) room.1)
    ∙ ground (arith, test_bit-set_bit bits off i h room.0)

pub length-set_bits :
    (min : ℤ) (bits : List ℕ) (l : List ℤ) → length (set_bits min bits l) ≡ length bits
unfolding set_bits
length-set_bits min bits [] = refl
length-set_bits min bits (idx ∷ r) =
    length-set_bits min (set_bit bits (pos_part (idx -ℤ min))) r
    ∙ length-set_bit bits (pos_part (idx -ℤ min))

pub zeros-IsBytes : (n : ℕ) → IsBytes (zeros n)
unfolding zeros
zeros-IsBytes zero = tt
zeros-IsBytes (suc n) = (omega arith, zeros-IsBytes n)

pub length-zeros : (n : ℕ) → length (zeros n) ≡ n
unfolding zeros
length-zeros zero = refl
length-zeros (suc n) = ap suc (length-zeros n)

byte_at-zeros : (n i : ℕ) → byte_at (zeros n) i ≡ 0
unfolding zeros byte_at
byte_at-zeros zero i = refl
byte_at-zeros (suc n) zero = refl
byte_at-zeros (suc n) (suc i) = byte_at-zeros n i

zero_table : each_under (λ k. same (byte_bit 0 k) false) 8 ≡ true
unfolding each_under
zero_table = refl

pub test_bit-zeros : (n i : ℕ) → test_bit (zeros n) i ≡ false
unfolding test_bit
test_bit-zeros n i =
    rw (byte_at-zeros n (i / 8))
      (same→eq _ _ (at_each (λ k. same (byte_bit 0 k) false) 8 (i % 8) (omega arith) zero_table))

-- What the decoding loop finds: the set bits from `i` on, counted from the base.
pub has-decode_from :
    (base : ℕ) (bits : List ℕ) (i n m : ℕ)
    → has (pos m) (decode_from base bits i n)
      ≡ (leb (base + i) m && ltb m (base + i + n) && test_bit bits (m - base))
unfolding decode_from has
has-decode_from base bits i zero m = ground arith
has-decode_from base bits i (suc n) m = elim (Bool-cases (eqb (base + i) m)) [
  | inl e ↦
      let q : m - base ≡ i = ground arith in
      rw q (ground (arith, has-decode_from base bits (i + 1) n m))
  | inr e ↦ ground (arith, has-decode_from base bits (i + 1) n m)
]

pub negative-decode_from :
    (base : ℕ) (bits : List ℕ) (i n m : ℕ) → has (negsuc m) (decode_from base bits i n) ≡ false
unfolding decode_from has
negative-decode_from base bits i zero m = refl
negative-decode_from base bits i (suc n) m =
    ground (arith, negative-decode_from base bits (i + 1) n m)
