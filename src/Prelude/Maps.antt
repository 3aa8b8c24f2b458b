-- ===== src/Prelude/Maps.antt =====
-- A Go map as an association list: its order is one order in which a `range` loop may visit it.
use mathlib.Core.Path.{◌≡◌, refl, ap, sym, subst}
use mathlib.Core.Option.{Option, none, some}
use mathlib.Core.Logic.{◌⊎◌, inl, inr}
use mathlib.Core.List.{List, [], ◌∷◌, ◌++◌, map}
use mathlib.Core.Bool.{Bool, true, false, ◌||◌, ◌&&◌}
use native.Mathlib.Omega.{arith}
use p2p_hls.Prelude.Tests.{Eq, ◌==◌, ==_iff, ==_refl, if◌then◌else◌, Bool-cases}
use p2p_hls.Prelude.Lists.{In, Distinct, select}

abbrev pub Map {ℓ κ} : Type ℓ → Type κ → Type (ℓ ⊔ κ)
Map K V = List (K × V)

abbrev pub map_some {ℓ κ} : {A : Type ℓ} {B : Type κ} → (A → B) → Option A → Option B
map_some f none = none
map_some f (some a) = some (f a)

abbrev pub keys {ℓ κ} : {K : Type ℓ} {V : Type κ} → Map K V → List K
keys = map (λ e. e.0)

module _ {ℓ} {K : Type ℓ} ⦃e : Eq K⦄ where
  -- `m[k]` of a map to Booleans that holds no `false`: whether the key is among the keys.
  unfoldable pub has : K → List K → Bool
  has k [] = false
  has k (j ∷ l) = j == k || has k l

  pub has-append : (k : K) (l r : List K) → has k (l ++ r) ≡ (has k l || has k r)
  unfolding has
  has-append k [] r = refl
  has-append k (j ∷ l) r = ground (arith, has-append k l r)

  pub has-select : (k : K) (p : K → Bool) (l : List K) → has k (select p l) ≡ (p k && has k l)
  unfolding has
  has-select k p [] = ground arith
  has-select k p (j ∷ l) = elim (Bool-cases (j == k)) [
    | inl q ↦ rw ((==_iff j k).0 q) (ground (arith, ==_refl k, has-select k p l))
    | inr q ↦ ground (arith, has-select k p l)
  ]

module _ {ℓ κ} {K : Type ℓ} {V : Type κ} ⦃e : Eq K⦄ where
  -- `v, ok := m[k]`
  unfoldable pub lookup : K → Map K V → Option V
  lookup k [] = none
  lookup k ((j, v) ∷ m) = if j == k then some v else lookup k m

  -- `m[k] = v`
  unfoldable pub insert : K → V → Map K V → Map K V
  insert k v [] = (k, v) ∷ []
  insert k v ((head, old) ∷ rest) =
      if head == k then (k, v) ∷ rest else (head, old) ∷ insert k v rest

  -- `delete(m, k)`
  unfoldable pub delete : K → Map K V → Map K V
  delete k [] = []
  delete k ((j, w) ∷ m) = if j == k then delete k m else (j, w) ∷ delete k m

  pub lookup-insert :
      (k j : K) (v : V) (m : Map K V)
      → lookup j (insert k v m) ≡ (if k == j then some v else lookup j m)
  unfolding insert lookup
  lookup-insert k j v [] = refl
  lookup-insert k j v ((head, old) ∷ rest) =
      ground (arith, lookup-insert k j v rest, ==_iff head k, ==_iff head j, ==_iff k j)

  pub lookup-delete :
      (k j : K) (m : Map K V) → lookup j (delete k m) ≡ (if k == j then none else lookup j m)
  unfolding lookup delete
  lookup-delete k j [] = ground arith
  lookup-delete k j ((i, w) ∷ m) =
      ground (arith, ==_iff k j, ==_iff i k, ==_iff i j, lookup-delete k j m)

module _ {K V : Type 0} ⦃e : Eq K⦄ where
  pub In-keys-insert :
      (k j : K) (v : V) (m : Map K V) → In j (keys (insert k v m)) → (k ≡ j) ⊎ In j (keys m)
  unfolding insert
  In-keys-insert k j v [] h = ground arith
  In-keys-insert k j v ((i, w) ∷ m) h = ground (arith, ==_iff i k, In-keys-insert k j v m)

  pub In-keys-delete : (k j : K) (m : Map K V) → In j (keys (delete k m)) → In j (keys m)
  unfolding delete
  In-keys-delete k j [] h = h
  In-keys-delete k j ((i, w) ∷ m) h = ground (arith, In-keys-delete k j m)

  pub insert-Distinct :
      (k : K) (v : V) (m : Map K V) → Distinct (keys m) → Distinct (keys (insert k v m))
  unfolding insert
  insert-Distinct k v [] d = ((λ h. h), tt)
  insert-Distinct k v ((i, w) ∷ m) d = elim (Bool-cases (i == k)) [
    | inl e ↦ rw e (rw ((==_iff i k).0 e) at d)
    | inr e ↦ rw e (
      (λ p. elim (In-keys-insert k i v m p) [ inl q ↦ ground (arith, ==_iff i k) | inr r ↦ d.0 r ]),
      insert-Distinct k v m d.1,
    )
  ]

  pub delete-Distinct : (k : K) (m : Map K V) → Distinct (keys m) → Distinct (keys (delete k m))
  unfolding delete
  delete-Distinct k [] d = tt
  delete-Distinct k ((i, w) ∷ m) d = ground (arith, delete-Distinct k m, In-keys-delete k i m)

  -- A key is among the keys exactly when a lookup finds it.
  pub lookup-none→not-In : (k : K) (m : Map K V) → lookup k m ≡ none → ¬ In k (keys m)
  unfolding lookup
  lookup-none→not-In k [] h = λ p. p
  lookup-none→not-In k ((i, w) ∷ m) h = λ p. ground (arith, ==_iff i k, lookup-none→not-In k m)

  pub not-In→lookup-none : (k : K) (m : Map K V) → ¬ In k (keys m) → lookup k m ≡ none
  unfolding lookup
  not-In→lookup-none k [] h = refl
  not-In→lookup-none k ((i, w) ∷ m) h = ground (arith, ==_iff i k, not-In→lookup-none k m)

  -- A change of every value.
  pub lookup-map :
      (k : K) (g : V → V) (m : Map K V)
      → lookup k (map (λ e. (e.0, g e.1)) m) ≡ map_some g (lookup k m)
  unfolding lookup
  lookup-map k g [] = refl
  lookup-map k g ((i, w) ∷ m) = ground (arith, lookup-map k g m)

  -- Keeping the entries whose keys pass a test.
  pub lookup-select :
      (k : K) (p : K → Bool) (m : Map K V)
      → lookup k (select (λ e. p e.0) m) ≡ (if p k then lookup k m else none)
  unfolding lookup
  lookup-select k p [] = ground arith
  lookup-select k p ((i, w) ∷ m) = elim (Bool-cases (i == k)) [
    | inl q ↦ rw ((==_iff i k).0 q) (ground (arith, ==_refl k, lookup-select k p m))
    | inr q ↦ ground (arith, lookup-select k p m)
  ]

module _ {K : Type 0} ⦃e : Eq K⦄ where
  pub In-keys : {V : Type 0} (k : K) (v : V) (m : Map K V) → In (k, v) m → In k (keys m)
  In-keys k v [] h = h
  In-keys k v (x ∷ m) (inl e) = inl (ap (λ t. t.0) e)
  In-keys k v (x ∷ m) (inr i) = inr (In-keys k v m i)

  -- With distinct keys an entry is what its key's lookup finds.
  pub lookup_of_In :
      {V : Type 0} (k : K) (v : V) (m : Map K V)
      → Distinct (keys m)
      → In (k, v) m
      → lookup k m ≡ some v
  unfolding lookup
  lookup_of_In k v [] d h = elim h [ ]
  lookup_of_In k v ((i, w) ∷ m) d (inl e) =
      ground (arith, ==_iff i k, ap (λ t. t.0) e, ap (λ t. t.1) e)
  lookup_of_In k v ((i, w) ∷ m) d (inr h) = elim (Bool-cases (i == k)) [
    | inl q ↦ absurd (d.0 (subst (λ t. In t (keys m)) (sym ((==_iff i k).0 q)) (In-keys k v m h)))
    | inr q ↦ rw q (lookup_of_In k v m d.1 h)
  ]

  pub In-select : (k : K) (p : K → Bool) (l : List K) → In k (select p l) → In k l
  In-select k p [] h = h
  In-select k p (j ∷ l) h = ground (arith, In-select k p l)

  pub select-Distinct : (p : K → Bool) (l : List K) → Distinct l → Distinct (select p l)
  select-Distinct p [] d = tt
  select-Distinct p (j ∷ l) d = ground (arith, In-select j p l, select-Distinct p l d.1)

  pub has→In : (k : K) (l : List K) → has k l ≡ true → In k l
  unfolding has
  has→In k [] h = ground arith
  has→In k (j ∷ l) h = ground (arith, ==_iff j k, has→In k l)

  pub In→has : (k : K) (l : List K) → In k l → has k l ≡ true
  unfolding has
  In→has k [] h = elim h [ ]
  In→has k (j ∷ l) h = ground (arith, ==_iff j k, In→has k l)
