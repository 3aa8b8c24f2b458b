-- ===== src/Party/Danmaku/Cap.antt =====
-- What the text cap keeps of a text.
use mathlib.Core.List.{reverse, reverse-append, reverse-reverse, flatten}
use p2p_hls.Prelude.{
  ℕ, suc, ◌+◌, ◌≤◌, ◌≡◌, refl, sym, ap, ◌∙◌, false, Bool-cases, inl, inr, ltb, leb, List, [], ◌∷◌,
  ◌++◌, length, take, take_all, length-append, length-reverse, subst, arith,
}
use p2p_hls.Party.Danmaku.{Runes, is_space, trim_left, trim_space, take_clusters, cap_text}

-- The text does not begin with a space.
abbrev Starts : Runes → Type 0
Starts [] = Unit
Starts (c ∷ s) = is_space c ≡ false

trim_left-Starts : (s : Runes) → Starts (trim_left s)
unfolding trim_left
trim_left-Starts [] = tt
trim_left-Starts (c ∷ s) = ground (arith, trim_left-Starts s)

trim_left_of_Starts : (s : Runes) → Starts s → trim_left s ≡ s
unfolding trim_left
trim_left_of_Starts [] h = refl
trim_left_of_Starts (c ∷ s) h = rw h

-- What is trimmed stands in front.
trim_left-suffix : (s : Runes) → (p : Runes) × (p ++ trim_left s ≡ s)
unfolding trim_left
trim_left-suffix [] = ([], refl)
trim_left-suffix (c ∷ s) = elim (Bool-cases (is_space c)) [
  | inl e ↦ (let (p, q) = trim_left-suffix s in (c ∷ p, rw e (ap (◌∷◌ c) q)))
  | inr e ↦ ([], rw e)
]

Starts-prefix : (s t : Runes) → Starts (s ++ t) → Starts s
Starts-prefix [] t h = tt
Starts-prefix (c ∷ s) t h = h

length-trim_left : (s : Runes) → length (trim_left s) ≤ length s
unfolding trim_left
length-trim_left [] = omega arith
length-trim_left (c ∷ s) = ground (arith, length-trim_left s)

length-trim_space : (s : Runes) → length (trim_space s) ≤ length s
unfolding trim_space
length-trim_space s = omega (
  arith,
  length-reverse (trim_left (reverse (trim_left s))),
  length-reverse (trim_left s),
  length-trim_left (reverse (trim_left s)),
  length-trim_left s,
)

-- What is left of a text before what was trimmed at its end.
split :
    (p u : Runes)
    → p ++ trim_left (reverse u) ≡ reverse u
    → u ≡ reverse (trim_left (reverse u)) ++ reverse p
split p u e =
    sym (reverse-reverse u) ∙ ap reverse (sym e) ∙ reverse-append p (trim_left (reverse u))

trim_space-Starts : (s : Runes) → Starts (trim_space s)
unfolding trim_space
trim_space-Starts s =
    let u = trim_left s in
    let (p, e) = trim_left-suffix (reverse u) in
    Starts-prefix _ (reverse p) (subst Starts (split p u e) (trim_left-Starts s))

-- Trimming twice is trimming once.
pub trim_space_twice : (s : Runes) → trim_space (trim_space s) ≡ trim_space s
unfolding trim_space
trim_space_twice s =
    let v = trim_left (reverse (trim_left s)) in
    ap (λ t. reverse (trim_left (reverse t))) (trim_left_of_Starts _ (trim_space-Starts s))
    ∙ ap (λ t. reverse (trim_left t)) (reverse-reverse v)
    ∙ ap reverse (trim_left_of_Starts v (trim_left-Starts _))

-- At most 100 runes in all come out of the loop.
length-take_clusters : (n : ℕ) (gs : List Runes) → n ≤ 100 → n + length (take_clusters n gs) ≤ 100
unfolding take_clusters
length-take_clusters n [] h = omega arith
length-take_clusters n (g ∷ gs) h = ground (
  arith,
  length-append g (take_clusters (n + length g) gs),
  length-take_clusters (n + length g) gs,
)

-- The loop keeps whole clusters from the front.
take_clusters-take :
    (n : ℕ) (gs : List Runes) → (k : ℕ) × (take_clusters n gs ≡ flatten (take k gs))
unfolding take_clusters flatten
take_clusters-take n [] = (0, refl)
take_clusters-take n (g ∷ gs) = elim (Bool-cases (ltb 100 (n + length g))) [
  | inl e ↦ (0, rw e)
  | inr e ↦ (let (k, p) = take_clusters-take (n + length g) gs in (suc k, rw e (ap (◌++◌ g) p)))
]

module _ (graphemes : Runes → List Runes) where
  -- A capped text has at most 100 runes.
  pub length-cap_text : (s : Runes) → length (cap_text graphemes s) ≤ 100
  unfolding cap_text
  length-cap_text s =
      let t = trim_space s in
      ground (
        arith,
        length-trim_space (take_clusters 0 (graphemes t)),
        length-take_clusters 0 (graphemes t),
      )

  cap_text_trimmed : (s : Runes) → trim_space (cap_text graphemes s) ≡ cap_text graphemes s
  unfolding cap_text
  cap_text_trimmed s = elim (Bool-cases (leb (length (trim_space s)) 100)) [
    | inl e ↦ rw e (trim_space_twice s)
    | inr e ↦ rw e (trim_space_twice _)
  ]

  -- Capping is idempotent: the host caps a received text before it rates it, and again when it
  -- broadcasts it, and the second time changes nothing.
  pub cap_text_twice :
      (s : Runes) → cap_text graphemes (cap_text graphemes s) ≡ cap_text graphemes s
  unfolding cap_text
  cap_text_twice s = short (cap_text graphemes s) (cap_text_trimmed s) (length-cap_text s)
    where
      short : (t : Runes) → trim_space t ≡ t → length t ≤ 100 → cap_text graphemes t ≡ t
      short t e h = ground (arith, e, ap length e)

  -- No cluster is split: if the segmentation only cuts a text into pieces, a capped text is made
  -- of whole clusters from the front of the trimmed text, trimmed once more.
  pub cap_text_clusters :
      (s : Runes)
      → ((t : Runes) → flatten (graphemes t) ≡ t)
      → (k : ℕ) × (cap_text graphemes s ≡ trim_space (flatten (take k (graphemes (trim_space s)))))
  unfolding cap_text
  cap_text_clusters s cuts = elim (Bool-cases (leb (length (trim_space s)) 100)) [
    | inl e ↦ (
      length (graphemes (trim_space s)),
      rw (e, take_all, cuts (trim_space s)) (sym (trim_space_twice s)),
    )
    | inr e ↦
        (let (k, p) = take_clusters-take 0 (graphemes (trim_space s)) in
          (k, rw e (ap trim_space p)))
  ]
