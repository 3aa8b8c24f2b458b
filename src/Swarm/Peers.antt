-- ===== src/Swarm/Peers.antt =====
-- internal/swarm/peers.go, and the per-peer marks of select.go: what the engine knows of the other
-- Viewers. A peer's have-set is never nil in the program, so the test for that is left out.
pub mod Reconcile
pub mod Merge
pub mod Demotion
use p2p_hls.Prelude.{
  ℕ, ◌+◌, Bool, true, false, not, ◌&&◌, ◌||◌, if◌then◌else◌, leb, eqb, ltb_ℤ, ℤ, List, [], ◌∷◌, map,
  select, has, Map, keys, lookup, insert, Option, none, some, string_eq, int_eq, ◌==◌,
}
use p2p_hls.Party.Types.{NodeId, Time, since}
use p2p_hls.Swarm.Engine.{Swarm, Config, PeerInfo, empty_info}
use p2p_hls.Swarm.Haves.{decode_bitmap, set_have, retain}

-- The first loop of `SetPeers`: the members but this node, and the records with those new to it.
unfoldable pub wanted : NodeId → List NodeId → List NodeId
wanted self ms = select (λ m. not (m == self)) ms

unfoldable pub admit_one : NodeId → Map NodeId PeerInfo → Map NodeId PeerInfo
admit_one m peers = elim (lookup m peers) [ none ↦ insert m empty_info peers | some p ↦ peers ]

unfoldable pub admit : Map NodeId PeerInfo → List NodeId → Map NodeId PeerInfo
unfolding admit_one
admit peers [] = peers
admit peers (m ∷ ms) = admit (admit_one m peers) ms

-- The second loop deletes the records that are not wanted.
unfoldable pub set_peers : Swarm → List NodeId → Swarm
set_peers s members =
    let want = wanted s.self members in
    record s { peers = select (λ e. has e.0 want) (admit s.peers want) }

unfoldable pub peers : Swarm → List NodeId
peers s = keys (select (λ e. not e.1.demoted) s.peers)

-- The record of a peer, a new one for a node that has none.
unfoldable pub record_of : NodeId → Map NodeId PeerInfo → PeerInfo
record_of node m = elim (lookup node m) [ none ↦ empty_info | some p ↦ p ]

-- A received have-map against the record.
unfoldable pub merge : PeerInfo → ℕ → List ℕ → ℕ → Time → PeerInfo
merge p base bitmap epoch now =
    if leb epoch p.epoch && not (eqb p.epoch 0)
    then record p { last_seen = now }
    else record p { last_seen = now; epoch = epoch; have = decode_bitmap base bitmap }

unfoldable pub on_peer_have : Swarm → NodeId → ℕ → List ℕ → ℕ → Time → Swarm
on_peer_have s node base bitmap epoch now = record s {
  peers = insert node (merge (record_of node s.peers) base bitmap epoch now) s.peers;
}

unfoldable pub peer_has : Swarm → NodeId → ℤ → Bool
peer_has s node idx = elim (lookup node s.peers) [ none ↦ false | some p ↦ has idx p.have ]

-- A peer that was heard of and has been silent for longer than the TTL.
unfoldable pub is_stale : Config → PeerInfo → Time → Bool
is_stale cfg p now = not (eqb p.last_seen 0) && ltb_ℤ cfg.have_ttl (since now p.last_seen)

unfoldable pub expire_stale : Swarm → Time → Swarm
expire_stale s now = record s {
  peers =
      map
        (λ e. (e.0, if is_stale s.cfg e.1 now then record (e.1) { have = []; epoch = 0 } else e.1))
        s.peers;
}

-- A change of one peer's record; nothing for a node without one.
unfoldable pub update_peer : Swarm → NodeId → (PeerInfo → PeerInfo) → Swarm
update_peer s node f = elim (lookup node s.peers) [
  | none ↦ s
  | some p ↦ record s { peers = insert node (f p) s.peers }
]

unfoldable pub on_rtt : Swarm → NodeId → ℤ → Swarm
on_rtt s node rtt = update_peer s node (λ p. record p { rtt = rtt; have_rtt = true })

unfoldable pub mark_busy : Swarm → NodeId → Time → Swarm
mark_busy s node now = update_peer s node (λ p. record p { busy_until = now + s.cfg.busy_cooldown })

unfoldable pub demote : Swarm → NodeId → Swarm
demote s node = update_peer s node (λ p. record p { demoted = true; have = [] })

-- What happens to an engine, and the engine after a history.
pub data Op : Type 0 where
  sets_have : ℤ → Op
  retains : ℤ → ℤ → Op
  sets_peers : List NodeId → Op
  hears : NodeId → ℕ → List ℕ → ℕ → Time → Op
  measures : NodeId → ℤ → Op
  busies : NodeId → Time → Op
  demotes : NodeId → Op
  expires : Time → Op

unfoldable pub step : Swarm → Op → Swarm
step s (sets_have idx) = set_have s idx
step s (retains min max) = (retain s min max).0
step s (sets_peers ms) = set_peers s ms
step s (hears node base bitmap epoch now) = on_peer_have s node base bitmap epoch now
step s (measures node rtt) = on_rtt s node rtt
step s (busies node now) = mark_busy s node now
step s (demotes node) = demote s node
step s (expires now) = expire_stale s now

unfoldable pub run : Swarm → List Op → Swarm
run s [] = s
run s (o ∷ os) = run (step s o) os
