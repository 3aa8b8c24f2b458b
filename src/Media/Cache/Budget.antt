-- ===== src/Media/Cache/Budget.antt =====
-- What the eviction leaves.
use p2p_hls.Prelude.{
  ℕ, ◌+◌, ◌-◌, ◌≤◌, ◌<◌, ◌≡◌, refl, sym, ap, ap₂, subst, ◌∙◌, not, leb, List, [], ◌∷◌, ◌++◌,
  append_nil, select, All, inl, inr, ◌⊎◌, Bool-cases, arith,
}
use mathlib.Core.List.{Perm, Permᴰ}
use mathlib.Core.Logic.{∥∥₁_elim}
use native.Mathlib.Nat.{ℕ_set}
use p2p_hls.Media.Cache.{CacheEntry, is_idle, total_size, evict_until, evict_cache}

total_size-Permᴰ : {l r : List CacheEntry} → Permᴰ l r → total_size l ≡ total_size r
unfolding total_size
total_size-Permᴰ Permᴰ.nil = refl
total_size-Permᴰ (Permᴰ.cons e p) =
    ap₂ (λ (d : CacheEntry) (n : ℕ). d.size + n) e (total_size-Permᴰ p)
total_size-Permᴰ (Permᴰ.swap e f) = omega (arith, ap (λ d. d.size) e, ap (λ d. d.size) f)
total_size-Permᴰ (Permᴰ.trans p q) = total_size-Permᴰ p ∙ total_size-Permᴰ q

total_size-Perm : (l r : List CacheEntry) → Perm l r → total_size l ≡ total_size r
total_size-Perm l r p = ∥∥₁_elim p (ℕ_set (total_size l) (total_size r)) total_size-Permᴰ

-- In the order of the access times.
abbrev pub IsSorted : List CacheEntry → Type 0
IsSorted [] = Unit
IsSorted (d ∷ r) = All (λ e. d.accessed ≤ e.accessed) r × IsSorted r

-- Each that is removed left too much behind it, with what is left at the end.
abbrev pub AllNeeded : ℕ → ℕ → List CacheEntry → Type 0
AllNeeded budget rest [] = Unit
AllNeeded budget rest (d ∷ r) = (budget < total_size (d ∷ r) + rest) × AllNeeded budget rest r

-- What is removed of the directories in their order, and what is left.
pub record Evicts (budget : ℕ) (dirs removed left : List CacheEntry) : Type 0 where
  pub splits : removed ++ left ≡ dirs
  pub fits : total_size left ≤ budget
  pub oldest : All (λ d. All (λ e. d.accessed ≤ e.accessed) left) removed
  pub needed : AllNeeded budget (total_size left) removed

All-append : (P : CacheEntry → Type 0) (xs ys : List CacheEntry) → All P (xs ++ ys) → All P ys
All-append P [] ys a = a
All-append P (x ∷ xs) ys a = All-append P xs ys a.1

total_size-append :
    (xs ys : List CacheEntry) → total_size (xs ++ ys) ≡ total_size xs + total_size ys
unfolding total_size
total_size-append [] ys = omega arith
total_size-append (d ∷ r) ys = omega (arith, total_size-append r ys)

evict_until-Evicts :
    (budget : ℕ) (dirs : List CacheEntry)
    → IsSorted dirs
    → (let (removed, left) = evict_until budget (total_size dirs) dirs in
        Evicts budget dirs removed left)
unfolding evict_until total_size
evict_until-Evicts budget [] s = record {
  splits = refl;
  fits = omega arith;
  oldest = tt;
  needed = tt;
}
evict_until-Evicts budget (d ∷ r) s = elim (Bool-cases (leb (total_size (d ∷ r)) budget)) [
  | inl q ↦
      rw (q, evict_until) record { splits = refl; fits = ground arith; oldest = tt; needed = tt }
  | inr q ↦
      let i = evict_until-Evicts budget r s.1 in
      let e : total_size (d ∷ r) - d.size ≡ total_size r = omega arith in
      rw (q, evict_until, e)
        record {
          splits = ap (◌∷◌ d) i.splits;
          fits = i.fits;
          oldest = (
            All-append (λ x. d.accessed ≤ x.accessed) (evict_until budget (total_size r) r).0
                (evict_until budget (total_size r) r).1
                (subst (All (λ x. d.accessed ≤ x.accessed)) (sym i.splits) s.0),
            i.oldest,
          );
          needed = (
            ground (
              arith,
              total_size-append (evict_until budget (total_size r) r).0
                  (evict_until budget (total_size r) r).1,
              ap total_size i.splits,
            ),
            i.needed,
          );
        }
]

-- The eviction of the cache removes every directory that was idle for longer than the time to live,
-- and keeps the others if they fit the budget. Else, where `sorted` puts them in the order of their
-- last access, it removes a first part of that order and leaves the rest: the rest fits the budget,
-- no directory that is removed was used later than one that is left, and each that is removed was
-- needed: with it, and what comes after it, the cache was over the budget.
pub evict_cache-Evicts :
    (sorted : List CacheEntry → List CacheEntry)
    → ((l : List CacheEntry) → Perm (sorted l) l × IsSorted (sorted l))
    → (now budget ttl : ℕ) (entries : List CacheEntry)
    → (let dirs = select (λ d. not (is_idle now ttl d)) entries in
        let (gone, left) = evict_cache sorted now budget ttl entries in
        (removed : List CacheEntry) × (gone ≡ select (is_idle now ttl) entries ++ removed)
        × (((total_size dirs ≤ budget) × (removed ≡ []) × (left ≡ dirs))
            ⊎ ((budget < total_size dirs) × Evicts budget (sorted dirs) removed left)))
unfolding evict_cache
evict_cache-Evicts sorted sorts now budget ttl entries =
    let dirs = select (λ d. not (is_idle now ttl d)) entries in
    let same = total_size-Perm (sorted dirs) dirs (sorts dirs).0 in
    elim (Bool-cases (leb (total_size dirs) budget)) [
      | inl q ↦
          rw (q, evict_cache)
            (
              [],
              sym (append_nil (select (is_idle now ttl) entries)),
              inl (ground arith, refl, refl),
            )
      | inr q ↦
          rw (q, evict_cache, ← same)
            (
              (evict_until budget (total_size (sorted dirs)) (sorted dirs)).0,
              refl,
              inr (ground (arith, same), evict_until-Evicts budget (sorted dirs) (sorts dirs).1),
            )
    ]
