-- ===== src/Swarm/Select/Apart.antt =====
-- Prefixes of a list, and the list without given entries.
use p2p_hls.Prelude.{
  ℕ, zero, suc, ◌+◌, ◌≤◌, ◌≡◌, refl, sym, ap, subst, inl, inr, Bool, true, not, Bool-cases, List,
  [], ◌∷◌, length, take, select, In, Distinct, has, In→has, select-Distinct, string_eq, ◌==◌,
  ==_iff, arith,
}
use p2p_hls.Party.Types.{NodeId}

select_absent : (c : NodeId) (l : List NodeId) → ¬ In c l → select (λ x. not (c == x)) l ≡ l
select_absent c [] h = refl
select_absent c (x ∷ l) h = ground (arith, ==_iff c x, differ, select_absent c l (λ i. h (inr i)))
  where
    differ : ¬ (x ≡ c)
    differ e = h (inl e)

select_apart_cons :
    (c : NodeId) (cs l : List NodeId)
    → select (λ x. not (has x (c ∷ cs))) l
      ≡ select (λ x. not (c == x)) (select (λ x. not (has x cs)) l)
unfolding has
select_apart_cons c cs [] = refl
select_apart_cons c cs (x ∷ l) = ground (arith, select_apart_cons c cs l)

length-select_all : (l : List NodeId) → length (select (λ x. not (has x [])) l) ≡ length l
unfolding has
length-select_all [] = refl
length-select_all (x ∷ l) = ap suc (length-select_all l)

-- Taking a node out of a list without repetitions shortens it by one at most.
length-select_one :
    (c : NodeId) (l : List NodeId)
    → Distinct l
    → length l ≤ suc (length (select (λ x. not (c == x)) l))
length-select_one c [] d = omega arith
length-select_one c (x ∷ l) d = elim (Bool-cases (c == x)) [
  | inl q ↦
      rw (q, select_absent c l (subst (λ t. ¬ In t l) (sym ((==_iff c x).0 q)) d.0)) (omega arith)
  | inr q ↦ rw q (omega (arith, length-select_one c l d.1))
]

pub length-select_apart :
    (cs l : List NodeId)
    → Distinct l
    → length l ≤ length cs + length (select (λ x. not (has x cs)) l)
length-select_apart [] l d = rw (length-select_all l) (omega arith)
length-select_apart (c ∷ cs) l d =
    let apart = select (λ x. not (has x cs)) l in
    rw (select_apart_cons c cs l) (
      omega (
        arith,
        length-select_apart cs l d,
        length-select_one c apart (select-Distinct (λ x. not (has x cs)) l d),
      ))

pub In-take : (a : NodeId) (n : ℕ) (l : List NodeId) → In a (take n l) → In a l
In-take a zero l h = elim h [ ]
In-take a (suc n) [] h = h
In-take a (suc n) (x ∷ l) h = elim h [ inl e ↦ inl e | inr i ↦ inr (In-take a n l i) ]

pub take-Distinct : (n : ℕ) (l : List NodeId) → Distinct l → Distinct (take n l)
take-Distinct zero l d = tt
take-Distinct (suc n) [] d = tt
take-Distinct (suc n) (x ∷ l) d = ((λ i. d.0 (In-take x n l i)), take-Distinct n l d.1)

pub length-take : (n : ℕ) (l : List NodeId) → n ≤ length l → length (take n l) ≡ n
length-take zero l h = refl
length-take (suc n) [] h = elim h [ ]
length-take (suc n) (x ∷ l) h = ap suc (length-take n l (omega arith))

select-holds : (p : NodeId → Bool) (a : NodeId) (l : List NodeId) → In a (select p l) → p a ≡ true
select-holds p a [] h = elim h [ ]
select-holds p a (x ∷ l) h = elim (Bool-cases (p x)) [
  | inl q ↦ elim (rw q at h) [ inl e ↦ subst (λ t. p t ≡ true) e q | inr i ↦ select-holds p a l i ]
  | inr q ↦ select-holds p a l (rw q at h)
]

pub not_both : (cs l : List NodeId) (a : NodeId) → In a cs → ¬ In a (select (λ x. not (has x cs)) l)
not_both cs l a h k = clash (has a cs) (In→has a cs h) (select-holds (λ x. not (has x cs)) a l k)
  where
    clash : (x : Bool) → x ≡ true → not x ≡ true → ⊥
    clash x p q = ground arith
