-- ===== src/Swarm/Haves/RoundTrip.antt =====
-- A peer decodes exactly the Segments that a have-map was made from.
use p2p_hls.Prelude.{
  ℕ, ◌+◌, ◌-◌, ◌/◌, ◌%◌, ◌<◌, ◌≤◌, ◌≡◌, refl, sym, ◌∙◌, true, false, ◌&&◌, if◌then◌else◌, leb, ℤ,
  pos, negsuc, pos_part, ◌≤ℤ◌, ◌<ℤ◌, ◌-ℤ◌, ltb_ℤ, low_bits, List, [], ◌∷◌, length, All, has, int_eq,
  arith,
}
use p2p_hls.Swarm.Engine.{Swarm}
use p2p_hls.Swarm.Haves.{
  have_msg, encode, decode_bitmap, decode_from, bounds, set_bits, zeros, test_bit,
}
use p2p_hls.Swarm.Haves.Bits.{
  offset_in, test_bit-set_bits, length-set_bits, zeros-IsBytes, length-zeros, test_bit-zeros,
  has-decode_from, negative-decode_from,
}

-- An index that fits a uint32.
abbrev pub Fits : ℤ → Type 0
Fits idx = (pos 0 ≤ℤ idx) × (idx <ℤ pos 4294967296)

-- The loop's bounds hold all the indices.
record Within (lo hi : ℤ) (l : List ℤ) : Type 0 where
  low : All (λ idx. lo ≤ℤ idx) l
  high : All (λ idx. idx ≤ℤ hi) l

bounds-mono : (lo hi : ℤ) (l : List ℤ) → ((bounds lo hi l).0 ≤ℤ lo) × (hi ≤ℤ (bounds lo hi l).1)
unfolding bounds
bounds-mono lo hi [] = omega arith
bounds-mono lo hi (idx ∷ r) =
    ground
      (arith, bounds-mono (if ltb_ℤ idx lo then idx else lo) (if ltb_ℤ hi idx then idx else hi) r)

bounds-Within : (lo hi : ℤ) (l : List ℤ) → Within (bounds lo hi l).0 (bounds lo hi l).1 l
unfolding bounds
bounds-Within lo hi [] = record { low = tt; high = tt }
bounds-Within lo hi (idx ∷ r) =
    let a = (if ltb_ℤ idx lo then idx else lo) in
    let b = (if ltb_ℤ hi idx then idx else hi) in
    let w = bounds-Within a b r in
    record {
      low = (ground (arith, bounds-mono a b r), w.low);
      high = (ground (arith, bounds-mono a b r), w.high);
    }

-- The lower bound is one of the indices or the starting value, so not below all of them.
bounds-nonneg : (lo hi : ℤ) (l : List ℤ) → pos 0 ≤ℤ lo → All Fits l → pos 0 ≤ℤ (bounds lo hi l).0
unfolding bounds
bounds-nonneg lo hi [] h f = h
bounds-nonneg lo hi (idx ∷ r) h f =
    bounds-nonneg (if ltb_ℤ idx lo then idx else lo) (if ltb_ℤ hi idx then idx else hi) r
      (ground (arith, f)) f.1

-- Above the lower bound an index is told by its offset.
has-offset_in :
    (lo : ℕ) (m : ℕ) (l : List ℤ)
    → All (λ idx. pos lo ≤ℤ idx) l
    → has (pos m) l ≡ (leb lo m && offset_in (pos lo) (m - lo) l)
unfolding has offset_in ◌-ℤ◌
has-offset_in lo m [] h = ground arith
has-offset_in lo m (pos k ∷ r) h = ground (arith, has-offset_in lo m r h.1)
has-offset_in lo m (negsuc k ∷ r) h = absurd (omega (arith, h.0))

negative-has :
    (lo : ℕ) (m : ℕ) (l : List ℤ) → All (λ idx. pos lo ≤ℤ idx) l → has (negsuc m) l ≡ false
unfolding has
negative-has lo m [] h = refl
negative-has lo m (pos k ∷ r) h = ground (arith, negative-has lo m r h.1)
negative-has lo m (negsuc k ∷ r) h = absurd (omega (arith, h.0))

has-le :
    (hi : ℤ) (m : ℕ) (l : List ℤ)
    → All (λ idx. idx ≤ℤ hi) l
    → has (pos m) l ≡ true
    → m ≤ pos_part hi
unfolding has
has-le hi m [] h e = ground arith
has-le hi m (idx ∷ r) h e = ground (arith, has-le hi m r h.1)

offset_mono : (k : ℕ) (j hi : ℤ) → j ≤ℤ hi → pos_part (j -ℤ pos k) ≤ pos_part (hi -ℤ pos k)
unfolding ◌-ℤ◌
offset_mono k j hi h = ground arith

offset_of : (k : ℕ) (hi : ℤ) → pos_part hi ≤ k + pos_part (hi -ℤ pos k)
unfolding ◌-ℤ◌
offset_of k hi = ground arith

-- The offsets of indices within the bounds fit the bitmap.
offsets_fit :
    (k : ℕ) (hi : ℤ) (n : ℕ) (l : List ℤ)
    → All (λ idx. pos k ≤ℤ idx) l
    → All (λ idx. idx ≤ℤ hi) l
    → pos_part (hi -ℤ pos k) / 8 < n
    → All (λ idx. pos_part (idx -ℤ pos k) / 8 < n) l
offsets_fit k hi n [] lo up room = tt
offsets_fit k hi n (idx ∷ r) lo up room =
    (offset idx lo.0 up.0, offsets_fit k hi n r lo.1 up.1 room)
  where
    offset : (j : ℤ) → pos k ≤ℤ j → j ≤ℤ hi → pos_part (j -ℤ pos k) / 8 < n
    offset j a b = omega (arith, offset_mono k j hi b)

abbrev bitmap_of : ℕ → ℤ → List ℤ → List ℕ
bitmap_of k hi l = set_bits (pos k) (zeros (pos_part (hi -ℤ pos k) / 8 + 1)) l

test_bit-bitmap_of :
    (k : ℕ) (hi : ℤ) (l : List ℤ) (i : ℕ)
    → All (λ idx. pos k ≤ℤ idx) l
    → All (λ idx. idx ≤ℤ hi) l
    → test_bit (bitmap_of k hi l) i ≡ offset_in (pos k) i l
test_bit-bitmap_of k hi l i lo up =
    let n = pos_part (hi -ℤ pos k) / 8 + 1 in
    test_bit-set_bits (pos k) (zeros n) l i (zeros-IsBytes n)
      (offsets_fit k hi (length (zeros n)) l lo up (rw (length-zeros n) (omega arith)))
    ∙ ground (arith, test_bit-zeros n i)

decode-bitmap_of :
    (k : ℕ) (hi : ℤ) (l : List ℤ) (x : ℤ)
    → All (λ idx. pos k ≤ℤ idx) l
    → All (λ idx. idx ≤ℤ hi) l
    → has x (decode_bitmap k (bitmap_of k hi l)) ≡ has x l
unfolding decode_bitmap
decode-bitmap_of k hi l (negsuc m) lo up =
    negative-decode_from k (bitmap_of k hi l) 0 _ m ∙ sym (negative-has k m l lo)
decode-bitmap_of k hi l (pos m) lo up =
    let n = pos_part (hi -ℤ pos k) / 8 + 1 in
    has-decode_from k (bitmap_of k hi l) 0 _ m
    ∙ ground (
      arith,
      length-set_bits (pos k) (zeros n) l,
      length-zeros n,
      test_bit-bitmap_of k hi l (m - k) lo up,
      has-offset_in k m l lo,
      has-le hi m l up,
      offset_of k hi,
    )

-- A nonempty set of indices, decoded from the bounds that the loop finds.
decode-bounds :
    (l : List ℤ) (lo hi : ℤ) (x : ℤ)
    → Within lo hi l
    → pos 0 ≤ℤ lo
    → lo <ℤ pos 4294967296
    → has x (
        decode_bitmap
          (low_bits lo % 4294967296)
          (set_bits lo (zeros (pos_part (hi -ℤ lo) / 8 + 1)) l))
      ≡ has x l
unfolding low_bits
decode-bounds l (pos k) hi x w h fits =
    let e : k % 18446744073709551616 % 4294967296 ≡ k = omega arith in
    rw e (decode-bitmap_of k hi l x w.low w.high)
decode-bounds l (negsuc k) hi x w h fits = absurd (omega arith)

decode-encode :
    (l : List ℤ) (epoch : ℕ) (x : ℤ)
    → All Fits l
    → has x (decode_bitmap (encode l epoch).0 (encode l epoch).1) ≡ has x l
unfolding encode decode_bitmap decode_from
decode-encode [] epoch x f = refl
decode-encode (first ∷ rest) epoch x f =
    let l = first ∷ rest in
    let max_int = pos 9223372036854775807 in
    let b = bounds max_int (pos 0) l in
    let w = bounds-Within max_int (pos 0) l in
    decode-bounds l b.0 b.1 x w (bounds-nonneg max_int (pos 0) l (omega arith) f)
      (omega (arith, w.low.0, f.0))

-- Round trip: from the base and the bitmap of a have-map a peer decodes exactly the Segments that
-- this node holds, if their indices are not negative and fit a uint32.
pub decode-have_msg :
    (s : Swarm) (x : ℤ)
    → All Fits s.have
    → has x (decode_bitmap (have_msg s).0 (have_msg s).1) ≡ has x s.have
unfolding have_msg
decode-have_msg s x f = decode-encode s.have s.have_epoch x f
