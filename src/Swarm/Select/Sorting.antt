-- ===== src/Swarm/Select/Sorting.antt =====
-- Sorting keeps the entries.
use p2p_hls.Prelude.{
  suc, ◌≡◌, refl, sym, ap, ◌∙◌, ◌⊎◌, inl, inr, Bool, Bool-cases, List, [], ◌∷◌, length, In,
  Distinct, string_eq, arith,
}
use p2p_hls.Party.Types.{NodeId}
use p2p_hls.Swarm.Select.{insert_before, stable_sort}

module _ (less : NodeId → NodeId → Bool) where
  length-insert_before :
      (x : NodeId) (l : List NodeId) → length (insert_before less x l) ≡ suc (length l)
  unfolding insert_before
  length-insert_before x [] = refl
  length-insert_before x (y ∷ r) = ground (arith, length-insert_before x r)

  pub length-stable_sort : (l : List NodeId) → length (stable_sort less l) ≡ length l
  unfolding stable_sort
  length-stable_sort [] = refl
  length-stable_sort (x ∷ r) =
      length-insert_before x (stable_sort less r) ∙ ap suc (length-stable_sort r)

  In-insert_before :
      (a x : NodeId) (l : List NodeId) → In a (insert_before less x l) → (x ≡ a) ⊎ In a l
  unfolding insert_before
  In-insert_before a x [] h = h
  In-insert_before a x (y ∷ r) h = ground (arith, In-insert_before a x r)

  pub In-stable_sort : (a : NodeId) (l : List NodeId) → In a (stable_sort less l) → In a l
  unfolding stable_sort
  In-stable_sort a [] h = h
  In-stable_sort a (x ∷ r) h = elim (In-insert_before a x (stable_sort less r) h) [
    | inl e ↦ inl e
    | inr i ↦ inr (In-stable_sort a r i)
  ]

  insert_before-Distinct :
      (x : NodeId) (l : List NodeId) → ¬ In x l → Distinct l → Distinct (insert_before less x l)
  unfolding insert_before
  insert_before-Distinct x [] h d = (h, tt)
  insert_before-Distinct x (y ∷ r) h d = elim (Bool-cases (less y x)) [
    | inl e ↦ rw e (
      (λ q. elim (In-insert_before y x r q) [ inl p ↦ h (inl (sym p)) | inr i ↦ d.0 i ]),
      insert_before-Distinct x r (λ i. h (inr i)) d.1,
    )
    | inr e ↦ rw e (h, d)
  ]

  pub stable_sort-Distinct : (l : List NodeId) → Distinct l → Distinct (stable_sort less l)
  unfolding stable_sort
  stable_sort-Distinct [] d = tt
  stable_sort-Distinct (x ∷ r) d =
      insert_before-Distinct x (stable_sort less r) (λ h. d.0 (In-stable_sort x r h))
        (stable_sort-Distinct r d.1)
