-- ===== src/Swarm/Select.antt =====
-- internal/swarm/select.go: which peer a Segment is pulled from, and which peers a have-map goes to.
-- `sort.Slice` and `sort.SliceStable` are a stable insertion sort. The random source is a function
-- from the number of the draw and the bound to the value drawn.
pub mod Best
pub mod Sorting
pub mod Draws
pub mod Apart
pub mod Gossip
use p2p_hls.Prelude.{
  ℕ, zero, suc, ◌+◌, ◌-◌, Bool, true, false, not, ◌&&◌, ◌||◌, if◌then◌else◌, ltb, leb, ltb_ℤ, eqb_ℤ,
  str_ltb, ℤ, pos, List, [], ◌∷◌, ◌++◌, length, take, drop, select, has, Map, lookup, Option, none,
  some, string_eq, int_eq,
}
use p2p_hls.Party.Types.{NodeId, Time}
use p2p_hls.Swarm.Engine.{Swarm, PeerInfo}
use p2p_hls.Swarm.Peers.{peers}

-- `time.Hour`
abbrev pub hour : ℤ
hour = pos 3600000000000

-- Eligible to serve a Segment: not demoted, advertising it, and not in the busy cooldown.
unfoldable pub eligible : ℤ → Time → PeerInfo → Bool
eligible idx now p = not (p.demoted || not (has idx p.have)) && not (ltb now p.busy_until)

-- The round-trip time that a peer is ranked by.
unfoldable pub rank : PeerInfo → ℤ
rank p = if p.have_rtt then p.rtt else hour

abbrev pub Candidate : Type 0
Candidate = NodeId × ℤ

-- `rtt < bestRTT || (rtt == bestRTT && id < best)`
unfoldable pub beats : Candidate → Candidate → Bool
beats (id, rtt) (best, best_rtt) = ltb_ℤ rtt best_rtt || (eqb_ℤ rtt best_rtt && str_ltb id best)

-- One round of the loop of `SelectSource`: the best so far against one record.
unfoldable pub next_best : ℤ → Time → NodeId → PeerInfo → Option Candidate → Option Candidate
next_best idx now id p best =
    if eligible idx now p
    then (elim best [
      | none ↦ some (id, rank p)
      | some b ↦ if beats (id, rank p) b then some (id, rank p) else some b
    ])
    else best

unfoldable pub select_from : ℤ → Time → Option Candidate → Map NodeId PeerInfo → Option Candidate
select_from idx now best [] = best
select_from idx now best ((id, p) ∷ r) = select_from idx now (next_best idx now id p best) r

unfoldable pub select_source : Swarm → ℤ → Time → Option NodeId
select_source s idx now = elim (select_from idx now none s.peers) [
  | none ↦ none
  | some b ↦ some b.0
]

unfoldable pub rtt_of : Swarm → NodeId → ℤ
rtt_of s id = elim (lookup id s.peers) [ none ↦ hour | some p ↦ rank p ]

-- Inserted from the back, so that equal entries keep their order.
unfoldable pub insert_before {ℓ} : {A : Type ℓ} → (A → A → Bool) → A → List A → List A
insert_before less x [] = x ∷ []
insert_before less x (y ∷ r) = if less y x then y ∷ insert_before less x r else x ∷ y ∷ r

unfoldable pub stable_sort {ℓ} : {A : Type ℓ} → (A → A → Bool) → List A → List A
unfolding insert_before
stable_sort less [] = []
stable_sort less (x ∷ r) = insert_before less x (stable_sort less r)

-- `pool[k]`, and the pool without it.
unfoldable pub draw {ℓ} : {A : Type ℓ} → ℕ → List A → Option (A × List A)
draw k [] = none
draw zero (x ∷ r) = some (x, r)
draw (suc k) (x ∷ r) = elim (draw k r) [ none ↦ none | some (y, rest) ↦ some (y, x ∷ rest) ]

-- The loop that adds random links: `n` rounds left, round `i`. A draw outside the pool would panic;
-- the model ends the loop there.
unfoldable pub add_random : (ℕ → ℕ → ℕ) → ℕ → ℕ → ℕ → List NodeId → List NodeId → List NodeId
add_random rng fanout i zero out pool = out
add_random rng fanout i (suc n) out pool =
    if ltb (length out) fanout && ltb 0 (length pool)
    then (elim (draw (rng i (length pool)) pool) [
      | none ↦ out
      | some (id, rest) ↦ add_random rng fanout (i + 1) n (out ++ id ∷ []) rest
    ])
    else out

unfoldable pub gossip_targets : (ℕ → ℕ → ℕ) → Swarm → List NodeId
gossip_targets rng s =
    let all = peers s in
    if leb (length all) s.cfg.fanout
    then all
    else (let sorted = stable_sort str_ltb all in
        let by_rtt = stable_sort (λ a b. ltb_ℤ (rtt_of s a) (rtt_of s b)) sorted in
        let chosen = take (s.cfg.fanout - s.cfg.random_links) by_rtt in
        let pool = select (λ id. not (has id chosen)) sorted in
        add_random rng s.cfg.fanout 0 s.cfg.random_links chosen pool)
