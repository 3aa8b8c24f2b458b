-- ===== src/Swarm/Peers/Merge.antt =====
-- Which received have-map a peer's record holds.
use p2p_hls.Prelude.{
  ℕ, ◌≤◌, ◌<◌, ◌≡◌, ◌≢◌, ap, ◌∙◌, if◌then◌else◌, Bool-cases, inl, inr, List, ℤ, has, lookup,
  lookup-insert, some, string_eq, int_eq, ◌==◌, ==_iff, All, arith,
}
use p2p_hls.Party.Types.{NodeId, Time}
use p2p_hls.Swarm.Engine.{Swarm, PeerInfo}
use p2p_hls.Swarm.Haves.{decode_bitmap, have_msg}
use p2p_hls.Swarm.Haves.RoundTrip.{Fits, decode-have_msg}
use p2p_hls.Swarm.Peers.{on_peer_have, merge, record_of, peer_has}

-- A received have-map never touches another peer's record.
lookup-on_peer_have :
    (s : Swarm) (node n : NodeId) (base : ℕ) (bitmap : List ℕ) (epoch : ℕ) (now : Time)
    → lookup n (on_peer_have s node base bitmap epoch now).peers ≡ (
        if node == n
        then some (merge (record_of node s.peers) base bitmap epoch now)
        else lookup n s.peers)
unfolding on_peer_have
lookup-on_peer_have s node n base bitmap epoch now = lookup-insert node n _ s.peers

peer_has-on_peer_have :
    (s : Swarm) (node n : NodeId) (base : ℕ) (bitmap : List ℕ) (epoch : ℕ) (now : Time) (x : ℤ)
    → peer_has (on_peer_have s node base bitmap epoch now) n x ≡ (
        if node == n
        then has x (merge (record_of node s.peers) base bitmap epoch now).have
        else peer_has s n x)
unfolding peer_has
peer_has-on_peer_have s node n base bitmap epoch now x = elim (Bool-cases (node == n)) [
  | inl e ↦ ground (arith, lookup-on_peer_have s node n base bitmap epoch now)
  | inr e ↦ ground (arith, lookup-on_peer_have s node n base bitmap epoch now)
]

merge_newer :
    (p : PeerInfo) (base : ℕ) (bitmap : List ℕ) (epoch : ℕ) (now : Time)
    → p.epoch < epoch
    → (merge p base bitmap epoch now).have ≡ decode_bitmap base bitmap
unfolding merge
merge_newer p base bitmap epoch now h = ground arith

merge_stale :
    (p : PeerInfo) (base : ℕ) (bitmap : List ℕ) (epoch : ℕ) (now : Time)
    → p.epoch ≢ 0
    → epoch ≤ p.epoch
    → (merge p base bitmap epoch now).have ≡ p.have
unfolding merge
merge_stale p base bitmap epoch now h old = ground arith

record-peer_has :
    (s : Swarm) (n : NodeId) (x : ℤ) → has x (record_of n s.peers).have ≡ peer_has s n x
unfolding record_of peer_has has
record-peer_has s n x = ground arith

-- Gossip between two engines. When a peer receives the have-map of this node at a newer epoch than
-- that of its record, it knows of exactly the Segments that this node holds, if their indices are
-- not negative and fit a uint32; and what it knows of other nodes stays.
pub peer_has-have_msg :
    (s t : Swarm) (n : NodeId) (x : ℤ) (now : Time)
    → All Fits s.have
    → (record_of s.self t.peers).epoch < (have_msg s).2
    → let (base, bitmap, epoch) = have_msg s in
      peer_has (on_peer_have t s.self base bitmap epoch now) n x
      ≡ (if s.self == n then has x s.have else peer_has t n x)
peer_has-have_msg s t n x now f newer =
    let (base, bitmap, epoch) = have_msg s in
    ground (
      arith,
      peer_has-on_peer_have t s.self n base bitmap epoch now x,
      ap (has x) (merge_newer (record_of s.self t.peers) base bitmap epoch now newer),
      decode-have_msg s x f,
    )

-- A have-map whose epoch is not newer, once an epoch was taken, changes nothing of what is known.
pub peer_has_stale :
    (s : Swarm) (node n : NodeId) (base : ℕ) (bitmap : List ℕ) (epoch : ℕ) (x : ℤ) (now : Time)
    → (record_of node s.peers).epoch ≢ 0
    → epoch ≤ (record_of node s.peers).epoch
    → peer_has (on_peer_have s node base bitmap epoch now) n x ≡ peer_has s n x
peer_has_stale s node n base bitmap epoch x now h old =
    peer_has-on_peer_have s node n base bitmap epoch now x ∙ elim (Bool-cases (node == n)) [
      | inl e ↦ rw e (
          ap (has x) (merge_stale (record_of node s.peers) base bitmap epoch now h old)
          ∙ record-peer_has s node x
          ∙ ap (λ k. peer_has s k x) ((==_iff node n).0 e))
      | inr e ↦ rw e
    ]
