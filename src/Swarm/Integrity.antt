-- ===== src/Swarm/Integrity.antt =====
-- internal/swarm/integrity.go, and `SegIndex` of swarm.go: Segment names, the hashes that a playlist
-- publishes, and the check of a Segment against one.
-- A text is a list of bytes; a blank beyond ASCII is not trimmed from a line.
use p2p_hls.Prelude.{
  ℕ, ◌+◌, ◌-◌, ◌*◌, GoString, bytes, has_prefix, has_suffix, trim_prefix, trim_suffix, split,
  digits_value, Bool, true, false, not, ◌&&◌, ◌||◌, if◌then◌else◌, ltb, leb, eqb, ◌==◌, string_eq,
  ℤ, pos, ◌-ℤ◌, List, [], ◌∷◌, Option, none, some, Map, insert,
}
use mathlib.Core.List.{reverse}

-- The sign that `strconv.Atoi` takes off, and the digits after it.
unfoldable pub sign_and_digits : GoString → Bool × GoString
sign_and_digits [] = (false, [])
sign_and_digits (c ∷ s) =
    if eqb c 45 then (true, s) else if eqb c 43 then (false, s) else (false, c ∷ s)

-- The int for a sign and digits, none out of the range of 64 bits.
unfoldable pub signed_int : Bool → ℕ → Option ℤ
signed_int negative n =
    if negative
    then (if leb n 9223372036854775808 then some (pos 0 -ℤ pos n) else none)
    else if ltb n 9223372036854775808
    then some (pos n)
    else none

-- `strconv.Atoi`
unfoldable pub atoi : GoString → Option ℤ
atoi s =
    let (negative, digits) = sign_and_digits s in
    elim digits [
      | [] ↦ none
      | c ∷ r ↦ elim (digits_value 0 (c ∷ r)) [ none ↦ none | some n ↦ signed_int negative n ]
    ]

unfoldable pub seg_index : GoString → Option ℤ
seg_index name =
    if has_prefix name (bytes "seg") && has_suffix name (bytes ".ts")
    then atoi (trim_suffix (trim_prefix name (bytes "seg")) (bytes ".ts"))
    else none

abbrev pub hash_tag : GoString
hash_tag = bytes "#EXT-X-P2P-HASH:"

unfoldable pub is_blank : ℕ → Bool
is_blank c = (leb 9 c && leb c 13) || eqb c 32

unfoldable pub trim_blanks : GoString → GoString
trim_blanks [] = []
trim_blanks (c ∷ s) = elim (is_blank c) [ true ↦ trim_blanks s | false ↦ c ∷ s ]

unfoldable pub trim_line : GoString → GoString
unfolding trim_blanks
trim_line s = reverse (trim_blanks (reverse (trim_blanks s)))

-- A Segment's URI line.
unfoldable pub is_segment_line : GoString → Bool
is_segment_line t = has_suffix t (bytes ".ts") && not (has_prefix t (bytes "#"))

-- The loop over the lines that are left, with the pending hash and the map so far.
unfoldable pub parse_lines :
    GoString → Map GoString GoString → List GoString → Map GoString GoString
parse_lines pending out [] = out
parse_lines pending out (line ∷ rest) =
    let t = trim_line line in
    elim (has_prefix t hash_tag) [
      | true ↦ parse_lines (trim_prefix t hash_tag) out rest
      | false ↦ elim (is_segment_line t && not (pending == [])) [
        | true ↦ parse_lines [] (insert t pending out) rest
        | false ↦ parse_lines pending out rest
      ]
    ]

unfoldable pub parse_hashes : GoString → Map GoString GoString
parse_hashes playlist = parse_lines [] [] (split 10 playlist)

-- The value of a hexadecimal digit.
unfoldable pub hex_digit : ℕ → Option ℕ
hex_digit c =
    if leb 48 c && leb c 57
    then some (c - 48)
    else if leb 97 c && leb c 102
    then some (c - 87)
    else if leb 65 c && leb c 70
    then some (c - 55)
    else none

-- `hex.DecodeString`, none for an error.
unfoldable pub hex_decode : GoString → Option (List ℕ)
hex_decode [] = some []
hex_decode (c ∷ []) = none
hex_decode (c ∷ d ∷ s) = elim (hex_digit c) [
  | none ↦ none
  | some h ↦ elim (hex_digit d) [
    | none ↦ none
    | some l ↦ elim (hex_decode s) [ none ↦ none | some r ↦ some ((h * 16 + l) ∷ r) ]
  ]
]

-- `sum256` is github.com/zeebo/blake3's `Sum256`. `subtle.ConstantTimeCompare` tells whether two
-- byte slices are equal.
unfoldable pub verify_segment : (List ℕ → List ℕ) → List ℕ → GoString → Bool
verify_segment sum256 body expect = elim (hex_decode expect) [
  | none ↦ false
  | some [] ↦ false
  | some (b ∷ want) ↦ sum256 body == (b ∷ want)
]
