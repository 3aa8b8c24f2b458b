-- ===== src/Media/Hash/Lines.antt =====
-- Lines of a text: what splits at line feeds comes together again, and blanks at the ends.
use p2p_hls.Prelude.{
  ℕ, ◌≡◌, refl, sym, ap, ◌∙◌, GoString, Bool, true, false, ◌||◌, eqb, List, [], ◌∷◌, ◌++◌,
  append_assoc, append_nil, any, All, split, split_from, Bool-cases, inl, inr, arith, length, skip,
  has_prefix, trim_prefix,
}
use mathlib.Core.List.{reverse, reverse-cons, reverse-reverse}
use p2p_hls.Swarm.Integrity.{is_blank, trim_blanks, trim_line}
use p2p_hls.Media.Hash.{join}

pub any-append : (p : ℕ → Bool) (xs ys : GoString) → any p (xs ++ ys) ≡ (any p xs || any p ys)
any-append p [] ys = refl
any-append p (x ∷ xs) ys = ground (arith, any-append p xs ys)

any-reverse : (p : ℕ → Bool) (xs : GoString) → any p (reverse xs) ≡ any p xs
any-reverse p [] = refl
any-reverse p (x ∷ xs) =
    rw (reverse-cons x xs) (ground (arith, any-append p (reverse xs) (x ∷ []), any-reverse p xs))

-- A line has no line feed.
abbrev pub is_feed : ℕ → Bool
is_feed c = eqb c 10

abbrev pub IsLine : GoString → Type 0
IsLine s = any is_feed s ≡ false

split_from-All : (part s : GoString) → IsLine part → All IsLine (split_from 10 part s)
unfolding split_from
split_from-All part [] h = (any-reverse is_feed part ∙ h, tt)
split_from-All part (a ∷ s) h = elim (Bool-cases (eqb a 10)) [
  | inl q ↦ rw (q, split_from) (any-reverse is_feed part ∙ h, split_from-All [] s refl)
  | inr q ↦ rw (q, split_from) (split_from-All (a ∷ part) s (ground arith))
]

pub split-All : (s : GoString) → All IsLine (split 10 s)
unfolding split
split-All s = split_from-All [] s refl

part_lem : (a : ℕ) (part x : GoString) → reverse (a ∷ part) ++ x ≡ reverse part ++ (a ∷ x)
part_lem a part x = rw (reverse-cons a part) (append_assoc (reverse part) (a ∷ []) x)

split_from-last : (part x : GoString) → IsLine x → split_from 10 part x ≡ (reverse part ++ x) ∷ []
unfolding split_from
split_from-last part [] h = ap (λ (t : GoString). t ∷ []) (sym (append_nil (reverse part)))
split_from-last part (a ∷ x) h = elim (Bool-cases (eqb a 10)) [
  | inl q ↦ ground arith
  | inr q ↦
      rw (q, split_from)
        (split_from-last (a ∷ part) x (ground arith)
          ∙ ap (λ (t : GoString). t ∷ []) (part_lem a part x))
]

split_from-line :
    (part x rest : GoString)
    → IsLine x
    → split_from 10 part (x ++ (10 ∷ rest)) ≡ (reverse part ++ x) ∷ split_from 10 [] rest
unfolding split_from
split_from-line part [] rest h =
    ap (λ (t : GoString). t ∷ split_from 10 [] rest) (sym (append_nil (reverse part)))
split_from-line part (a ∷ x) rest h = elim (Bool-cases (eqb a 10)) [
  | inl q ↦ ground arith
  | inr q ↦
      rw (q, split_from)
        (split_from-line (a ∷ part) x rest (ground arith)
          ∙ ap (λ (t : GoString). t ∷ split_from 10 [] rest) (part_lem a part x))
]

pub split-join :
    (x : GoString) (r : List GoString) → All IsLine (x ∷ r) → split 10 (join 10 (x ∷ r)) ≡ x ∷ r
unfolding split join
split-join x [] h = split_from-last [] x h.0
split-join x (y ∷ r) h =
    split_from-line [] x (join 10 (y ∷ r)) h.0 ∙ ap (◌∷◌ x) (split-join y r h.1)

-- A text with no blank at all is not trimmed.
trim_blanks_none : (s : GoString) → any is_blank s ≡ false → trim_blanks s ≡ s
unfolding trim_blanks
trim_blanks_none [] h = refl
trim_blanks_none (c ∷ s) h = elim (Bool-cases (is_blank c)) [
  | inl q ↦ ground arith
  | inr q ↦ rw (q, trim_blanks) refl
]

pub trim_line_none : (s : GoString) → any is_blank s ≡ false → trim_line s ≡ s
unfolding trim_line
trim_line_none s h =
    rw (trim_blanks_none s h, trim_blanks_none (reverse s) (any-reverse is_blank s ∙ h))
      (reverse-reverse s)

pub has_prefix-append : (p s : GoString) → has_prefix (p ++ s) p ≡ true
unfolding has_prefix
has_prefix-append [] [] = refl
has_prefix-append [] (c ∷ s) = refl
has_prefix-append (c ∷ p) s = ground (arith, has_prefix-append p s)

skip-append : (p s : GoString) → skip (length p) (p ++ s) ≡ s
unfolding skip
skip-append [] [] = refl
skip-append [] (c ∷ s) = refl
skip-append (c ∷ p) s = skip-append p s

pub trim_prefix-append : (p s : GoString) → trim_prefix (p ++ s) p ≡ s
unfolding trim_prefix
trim_prefix-append p s = rw (has_prefix-append p s) (skip-append p s)
