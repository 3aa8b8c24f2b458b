-- ===== src/Swarm/Select/Gossip.antt =====
-- Which peers a have-map goes to.
use p2p_hls.Prelude.{
  ℕ, ◌+◌, ◌-◌, ◌<◌, ◌≡◌, inl, inr, Bool, not, Bool-cases, leb, ltb_ℤ, str_ltb, List, [], ◌∷◌,
  length, take, select, In, Distinct, has, select-Distinct, In-select, string_eq, keys, Map, arith,
}
use Prim.Native.Nat.{min}
use p2p_hls.Party.Types.{NodeId}
use p2p_hls.Swarm.Engine.{Swarm, PeerInfo}
use p2p_hls.Swarm.Peers.{peers}
use p2p_hls.Swarm.Select.{stable_sort, add_random, gossip_targets, rtt_of}
use p2p_hls.Swarm.Select.Sorting.{length-stable_sort, In-stable_sort, stable_sort-Distinct}
use p2p_hls.Swarm.Select.Draws.{InRange, add_random-Added}
use p2p_hls.Swarm.Select.Apart.{length-select_apart, In-take, take-Distinct, length-take, not_both}

-- The targets of one round of gossip.
pub record Targets (s : Swarm) (res : List NodeId) : Type 0 where
  pub among : (a : NodeId) → In a res → In a (peers s)
  pub distinct : Distinct res
  pub size : length res ≡ min s.cfg.fanout (length (peers s))

peers-Distinct : (s : Swarm) → Distinct (keys s.peers) → Distinct (peers s)
unfolding peers
peers-Distinct s d = keys_select-Distinct (λ p. not p.demoted) s.peers d
  where
    inside :
        (f : PeerInfo → Bool) (a : NodeId) (m : Map NodeId PeerInfo)
        → In a (keys (select (λ e. f e.1) m))
        → In a (keys m)
    inside f a [] h = h
    inside f a ((i, v) ∷ m) h = ground (arith, inside f a m)

    keys_select-Distinct :
        (f : PeerInfo → Bool) (m : Map NodeId PeerInfo)
        → Distinct (keys m)
        → Distinct (keys (select (λ e. f e.1) m))
    keys_select-Distinct f [] d = tt
    keys_select-Distinct f ((i, v) ∷ m) d =
        ground (arith, inside f i m, keys_select-Distinct f m d.1)

-- Whatever the random source draws within its range, a round of gossip goes to peers that are not
-- demoted, to none of them twice, and to as many as the fanout says or to all if there are fewer.
pub gossip_targets-Targets :
    (rng : ℕ → ℕ → ℕ) (s : Swarm)
    → InRange rng
    → Distinct (keys s.peers)
    → Targets s (gossip_targets rng s)
unfolding gossip_targets
gossip_targets-Targets rng s ran d = elim (Bool-cases (leb (length (peers s)) s.cfg.fanout)) [
  | inl few ↦
      rw few (record { among = λ a h. h; distinct = peers-Distinct s d; size = ground arith })
  | inr many ↦ rw many (sampled (ground arith))
]
  where
    open s use {cfg}

    sorted : List NodeId
    sorted = stable_sort str_ltb (peers s)

    by_rtt : List NodeId
    by_rtt = stable_sort (λ a b. ltb_ℤ (rtt_of s a) (rtt_of s b)) sorted

    chosen : List NodeId
    chosen = take (cfg.fanout - cfg.random_links) by_rtt

    pool : List NodeId
    pool = select (λ id. not (has id chosen)) sorted

    sampled_sizes :
        cfg.fanout < length (peers s)
        → Distinct sorted
        → (length chosen ≡ cfg.fanout - cfg.random_links)
          × (cfg.fanout < length chosen + length pool)
    sampled_sizes lt dn =
        let a = length-stable_sort str_ltb (peers s) in
        let b = length-stable_sort (λ x y. ltb_ℤ (rtt_of s x) (rtt_of s y)) sorted in
        (
          length-take (cfg.fanout - cfg.random_links) by_rtt (omega (arith, a, b)),
          omega (arith, a, length-select_apart chosen sorted dn),
        )

    sampled :
        cfg.fanout < length (peers s)
        → Targets s (add_random rng cfg.fanout 0 cfg.random_links chosen pool)
    sampled lt =
        let dn = stable_sort-Distinct str_ltb (peers s) (peers-Distinct s d) in
        let db = stable_sort-Distinct (λ a b. ltb_ℤ (rtt_of s a) (rtt_of s b)) sorted dn in
        let n = cfg.fanout - cfg.random_links in
        let sizes = sampled_sizes lt dn in
        let r =
          add_random-Added rng cfg.fanout 0 cfg.random_links chosen pool ran
            (take-Distinct n by_rtt db) (select-Distinct (λ id. not (has id chosen)) sorted dn)
            (not_both chosen sorted) (omega (arith, sizes.0)) (omega (arith, sizes.0))
            (omega (arith, sizes.1)) in
        record {
          among = λ a h. elim (r.inside a h) [
            | inl k ↦ In-stable_sort str_ltb a (peers s) (
                In-stable_sort (λ x y. ltb_ℤ (rtt_of s x) (rtt_of s y)) a sorted
                  (In-take a n by_rtt k))
            | inr k ↦
                In-stable_sort str_ltb a (peers s)
                  (In-select a (λ id. not (has id chosen)) sorted k)
          ];
          distinct = r.distinct;
          size = omega (arith, r.size);
        }
