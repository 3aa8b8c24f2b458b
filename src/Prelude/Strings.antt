-- ===== src/Prelude/Strings.antt =====
-- A Go string is a sequence of bytes. Equality, and the lexicographic order of `<`.
use Prim.Native.Nat.{ℕ, zero, suc, ◌+◌, ◌-◌, ◌*◌}
use Prim.Native.Char.{code}
use Prim.Native.String.{String}
use mathlib.Core.Path.{◌≡◌, refl}
use mathlib.Core.Bool.{Bool, true, false, ◌&&◌, ◌||◌}
use mathlib.Core.Logic.{◌↔◌}
use mathlib.Core.List.{List, [], ◌∷◌, reverse, map}
use mathlib.Core.Option.{Option, none, some}
use native.Mathlib.Omega.{arith}
use p2p_hls.Prelude.Tests.{Eq, eqb, ltb, leb, if◌then◌else◌}
use p2p_hls.Prelude.Lists.{length}

abbrev pub GoString : Type 0
GoString = List ℕ

-- The bytes of an ASCII literal.
abbrev pub bytes : String → GoString
bytes String.[] = []
bytes (String.◌∷◌ c s) = code c ∷ bytes s

unfoldable pub str_beq : GoString → GoString → Bool
str_beq [] [] = true
str_beq [] (b ∷ t) = false
str_beq (a ∷ s) [] = false
str_beq (a ∷ s) (b ∷ t) = eqb a b && str_beq s t

pub str_beq_iff : (s t : GoString) → (str_beq s t ≡ true) ↔ (s ≡ t)
unfolding str_beq
str_beq_iff [] [] = ground arith
str_beq_iff [] (b ∷ t) = ground arith
str_beq_iff (a ∷ s) [] = ground arith
str_beq_iff (a ∷ s) (b ∷ t) = ground (arith, str_beq_iff s t)

instance abbrev pub string_eq : Eq GoString
string_eq = record { test = str_beq; decides = str_beq_iff }

unfoldable pub str_ltb : GoString → GoString → Bool
str_ltb [] [] = false
str_ltb [] (b ∷ t) = true
str_ltb (a ∷ s) [] = false
str_ltb (a ∷ s) (b ∷ t) = ltb a b || (eqb a b && str_ltb s t)

pub str_ltb_irrefl : (s : GoString) → str_ltb s s ≡ false
unfolding str_ltb
str_ltb_irrefl [] = refl
str_ltb_irrefl (a ∷ s) = ground (arith, str_ltb_irrefl s)

pub str_ltb_trans :
    (s t u : GoString) → str_ltb s t ≡ true → str_ltb t u ≡ true → str_ltb s u ≡ true
unfolding str_ltb
str_ltb_trans [] [] u h k = ground arith
str_ltb_trans [] (b ∷ t) [] h k = ground arith
str_ltb_trans [] (b ∷ t) (c ∷ u) h k = refl
str_ltb_trans (a ∷ s) [] u h k = ground arith
str_ltb_trans (a ∷ s) (b ∷ t) [] h k = ground arith
str_ltb_trans (a ∷ s) (b ∷ t) (c ∷ u) h k = ground (arith, str_ltb_trans s t u)

-- The order is total.
pub str_ltb-total : (s t : GoString) → str_ltb s t ≡ false → str_ltb t s ≡ false → s ≡ t
unfolding str_ltb
str_ltb-total [] [] h k = refl
str_ltb-total [] (b ∷ t) h k = ground arith
str_ltb-total (a ∷ s) [] h k = ground arith
str_ltb-total (a ∷ s) (b ∷ t) h k = ground (arith, str_ltb-total s t)

-- `strings.HasPrefix(s, p)`
unfoldable pub has_prefix : GoString → GoString → Bool
has_prefix s [] = true
has_prefix [] (b ∷ p) = false
has_prefix (a ∷ s) (b ∷ p) = eqb a b && has_prefix s p

-- The string without its first `n` bytes.
unfoldable pub skip : ℕ → GoString → GoString
skip zero s = s
skip (suc n) [] = []
skip (suc n) (a ∷ s) = skip n s

-- `strings.TrimPrefix(s, p)`
unfoldable pub trim_prefix : GoString → GoString → GoString
trim_prefix s p = if has_prefix s p then skip (length p) s else s

-- `strings.HasSuffix(s, p)`
unfoldable pub has_suffix : GoString → GoString → Bool
has_suffix s p = has_prefix (reverse s) (reverse p)

-- `strings.TrimSuffix(s, p)`
unfoldable pub trim_suffix : GoString → GoString → GoString
trim_suffix s p = reverse (trim_prefix (reverse s) (reverse p))

-- `strings.Split(s, sep)` for a separator of one byte, at the reversed part since the last one.
unfoldable pub split_from : ℕ → GoString → GoString → List GoString
split_from sep part [] = reverse part ∷ []
split_from sep part (a ∷ s) = elim (eqb a sep) [
  | true ↦ reverse part ∷ split_from sep [] s
  | false ↦ split_from sep (a ∷ part) s
]

unfoldable pub split : ℕ → GoString → List GoString
split sep s = split_from sep [] s

-- The value of a sequence of decimal digits after those of `acc`.
unfoldable pub digits_value : ℕ → GoString → Option ℕ
digits_value acc [] = some acc
digits_value acc (c ∷ s) =
    let rest = digits_value (acc * 10 + (c - 48)) s in if leb 48 c && leb c 57 then rest else none

-- `strings.ToLower` of ASCII.
unfoldable pub to_lower : GoString → GoString
to_lower = map (λ c. if leb 65 c && leb c 90 then c + 32 else c)
