-- ===== src/Media/Cache.antt =====
-- internal/media/cache.go: `EvictCache`.
-- A directory has a size and a time of its last access; times are nanoseconds, sizes, the budget and
-- the idle time are not negative. The directories come as they are read; `sorted` is `sort.Slice` by
-- the access time, whose order among equal times is not fixed. The sum of the sizes is below 2 ^ 63.
pub mod Budget
use p2p_hls.Prelude.{
  ℕ, zero, ◌+◌, ◌-◌, Bool, true, false, not, if◌then◌else◌, leb, ltb, List, [], ◌∷◌, ◌++◌, select,
}

pub record CacheEntry : Type 0 where
  pub path : List ℕ
  pub size : ℕ
  pub accessed : ℕ

-- `now.Sub(info.ModTime()) > ttl`
unfoldable pub is_idle : ℕ → ℕ → CacheEntry → Bool
is_idle now ttl d = ltb (d.accessed + ttl) now

unfoldable pub total_size : List CacheEntry → ℕ
total_size [] = 0
total_size (d ∷ r) = d.size + total_size r

-- The loop over the sorted directories: those that are removed, and those that are left.
unfoldable pub evict_until : ℕ → ℕ → List CacheEntry → List CacheEntry × List CacheEntry
evict_until budget total [] = ([], [])
evict_until budget total (d ∷ r) = elim (leb total budget) [
  | true ↦ ([], d ∷ r)
  | false ↦ let (removed, left) = evict_until budget (total - d.size) r in (d ∷ removed, left)
]

-- What `EvictCache` removes, the idle ones first, and what it leaves.
unfoldable pub evict_cache :
    (List CacheEntry → List CacheEntry)
    → ℕ
    → ℕ
    → ℕ
    → List CacheEntry
    → List CacheEntry × List CacheEntry
evict_cache sorted now budget ttl entries =
    let idle = select (is_idle now ttl) entries in
    let dirs = select (λ d. not (is_idle now ttl d)) entries in
    if leb (total_size dirs) budget
    then (idle, dirs)
    else (let (removed, left) = evict_until budget (total_size dirs) (sorted dirs) in
        (idle ++ removed, left))
