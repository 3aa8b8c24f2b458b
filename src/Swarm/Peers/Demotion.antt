-- ===== src/Swarm/Peers/Demotion.antt =====
-- How long a demotion lasts.
use p2p_hls.Prelude.{
  ℕ, ◌≡◌, ◌≢◌, refl, sym, ap, subst, Bool, true, false, not, if◌then◌else◌, Bool-cases,
  Option-cases, map_some, lookup-map, inl, inr, List, [], ◌∷◌, has, lookup, lookup-insert, Option,
  none, some, string_eq, ◌==◌, ==_iff, All, ℤ, arith,
}
use p2p_hls.Party.Types.{NodeId, Time}
use p2p_hls.Swarm.Engine.{Swarm, PeerInfo, empty_info}
use p2p_hls.Swarm.Haves.{set_have, retain}
use p2p_hls.Swarm.Peers.{
  Op, sets_have, retains, sets_peers, hears, measures, busies, demotes, expires, step, run,
  set_peers, on_peer_have, on_rtt, mark_busy, demote, expire_stale, is_stale, update_peer, merge,
  record_of,
}
use p2p_hls.Swarm.Peers.Reconcile.{lookup-set_peers, kept_or_new}

-- The engine knows the peer and has it demoted.
abbrev pub IsDemoted : Option PeerInfo → Type 0
IsDemoted none = ⊥
IsDemoted (some p) = p.demoted ≡ true

-- An operation after which a node may still be in the party.
abbrev pub Keeps : NodeId → Op → Type 0
Keeps n (sets_peers ms) = has n ms ≡ true
Keeps n o = Unit

lookup-update_peer :
    (s : Swarm) (node n : NodeId) (f : PeerInfo → PeerInfo)
    → lookup n (update_peer s node f).peers
      ≡ (if node == n then map_some f (lookup n s.peers) else lookup n s.peers)
unfolding update_peer
lookup-update_peer s node n f = elim (Option-cases (lookup node s.peers)) [
  | inl e ↦ elim (Bool-cases (node == n)) [
    | inl q ↦ rw (e, update_peer) (ground (arith, ap (λ k. lookup k s.peers) ((==_iff node n).0 q)))
    | inr q ↦ rw (e, update_peer) (rw q)
  ]
  | inr (p, e) ↦ elim (Bool-cases (node == n)) [
    | inl q ↦
        rw (e, update_peer)
          (ground (
            arith,
            ap (λ k. lookup k s.peers) ((==_iff node n).0 q),
            lookup-insert node n (f p) s.peers,
          ))
    | inr q ↦ rw (e, update_peer) (ground (arith, lookup-insert node n (f p) s.peers))
  ]
]

update_peer-IsDemoted :
    (s : Swarm) (node n : NodeId) (f : PeerInfo → PeerInfo)
    → ((p : PeerInfo) → p.demoted ≡ true → (f p).demoted ≡ true)
    → IsDemoted (lookup n s.peers)
    → IsDemoted (lookup n (update_peer s node f).peers)
update_peer-IsDemoted s node n f keep d =
    rw (lookup-update_peer s node n f) (both (node == n) (lookup n s.peers) d)
  where
    both :
        (b : Bool) (o : Option PeerInfo) → IsDemoted o → IsDemoted (if b then map_some f o else o)
    both true none h = h
    both true (some p) h = keep p h
    both false o h = h

merge-demoted :
    (p : PeerInfo) (base : ℕ) (bitmap : List ℕ) (epoch : ℕ) (now : Time)
    → p.demoted ≡ true
    → (merge p base bitmap epoch now).demoted ≡ true
unfolding merge
merge-demoted p base bitmap epoch now h = ground arith

record-demoted :
    (s : Swarm) (n : NodeId) → IsDemoted (lookup n s.peers) → (record_of n s.peers).demoted ≡ true
unfolding record_of
record-demoted s n d = ground arith

on_peer_have-IsDemoted :
    (s : Swarm) (node n : NodeId) (base : ℕ) (bitmap : List ℕ) (epoch : ℕ) (now : Time)
    → IsDemoted (lookup n s.peers)
    → IsDemoted (lookup n (on_peer_have s node base bitmap epoch now).peers)
unfolding on_peer_have
on_peer_have-IsDemoted s node n base bitmap epoch now d =
    rw (lookup-insert node n (merge (record_of node s.peers) base bitmap epoch now) s.peers)
      (elim (Bool-cases (node == n)) [
        | inl e ↦ rw e (
            merge-demoted (record_of node s.peers) base bitmap epoch now (
              record-demoted s node
                (subst (λ k. IsDemoted (lookup k s.peers)) (sym ((==_iff node n).0 e)) d)))
        | inr e ↦ rw e d
      ])

set_have-peers : (s : Swarm) (idx : ℤ) → (set_have s idx).peers ≡ s.peers
unfolding set_have
set_have-peers s idx = ground arith

retain-peers : (s : Swarm) (min max : ℤ) → (retain s min max).0.peers ≡ s.peers
unfolding retain
retain-peers s min max = ground arith

set_peers-IsDemoted :
    (s : Swarm) (ms : List NodeId) (n : NodeId)
    → n ≢ s.self
    → has n ms ≡ true
    → IsDemoted (lookup n s.peers)
    → IsDemoted (lookup n (set_peers s ms).peers)
set_peers-IsDemoted s ms n ne k d =
    rw (lookup-set_peers s ms n, k) (other (n == s.self) (λ e. ne ((==_iff n s.self).0 e)))
  where
    known : (o : Option PeerInfo) → IsDemoted o → IsDemoted (kept_or_new o true)
    known (some p) h = h
    known none h = elim h [ ]

    other :
        (b : Bool)
        → ¬ (b ≡ true)
        → IsDemoted (if not b then kept_or_new (lookup n s.peers) true else none)
    other true h = absurd (h refl)
    other false h = known (lookup n s.peers) d

expire_stale-IsDemoted :
    (s : Swarm) (n : NodeId) (now : Time)
    → IsDemoted (lookup n s.peers)
    → IsDemoted (lookup n (expire_stale s now).peers)
unfolding expire_stale
expire_stale-IsDemoted s n now d =
    rw
      (lookup-map n (λ p. if is_stale s.cfg p now then record p { have = []; epoch = 0 } else p)
        s.peers)
      (kept (lookup n s.peers) d)
  where
    kept :
        (o : Option PeerInfo)
        → IsDemoted o
        → IsDemoted (
            map_some (λ p. if is_stale s.cfg p now then record p { have = []; epoch = 0 } else p) o)
    kept (some p) h = ground arith
    kept none h = h

step-IsDemoted :
    (n : NodeId) (s : Swarm) (o : Op)
    → n ≢ s.self
    → Keeps n o
    → IsDemoted (lookup n s.peers)
    → IsDemoted (lookup n (step s o).peers)
unfolding step on_rtt mark_busy demote
step-IsDemoted n s (sets_have idx) ne k d = rw (set_have-peers s idx) d
step-IsDemoted n s (retains min max) ne k d = rw (retain-peers s min max) d
step-IsDemoted n s (sets_peers ms) ne k d = set_peers-IsDemoted s ms n ne k d
step-IsDemoted n s (hears node base bitmap epoch now) ne k d =
    on_peer_have-IsDemoted s node n base bitmap epoch now d
step-IsDemoted n s (measures node rtt) ne k d = update_peer-IsDemoted s node n _ (λ p h. h) d
step-IsDemoted n s (busies node now) ne k d = update_peer-IsDemoted s node n _ (λ p h. h) d
step-IsDemoted n s (demotes node) ne k d = update_peer-IsDemoted s node n _ (λ p h. refl) d
step-IsDemoted n s (expires now) ne k d = expire_stale-IsDemoted s n now d

step-self : (s : Swarm) (o : Op) → (step s o).self ≡ s.self
unfolding step set_have retain set_peers on_peer_have on_rtt mark_busy demote expire_stale
    update_peer
step-self s (sets_have idx) = ground arith
step-self s (retains min max) = ground arith
step-self s (sets_peers ms) = refl
step-self s (hears node base bitmap epoch now) = refl
step-self s (measures node rtt) = ground arith
step-self s (busies node now) = ground arith
step-self s (demotes node) = ground arith
step-self s (expires now) = refl

-- A demoted peer stays demoted through any history in which every Audience update still lists it:
-- gossip from it, new round trips, busy marks and expiries do not bring it back.
pub run-IsDemoted :
    (n : NodeId) (s : Swarm) (os : List Op)
    → n ≢ s.self
    → All (Keeps n) os
    → IsDemoted (lookup n s.peers)
    → IsDemoted (lookup n (run s os).peers)
unfolding run
run-IsDemoted n s [] ne k d = d
run-IsDemoted n s (o ∷ os) ne k d =
    run-IsDemoted n (step s o) os (rw (step-self s o) ne) k.1 (step-IsDemoted n s o ne k.0 d)

set_peers-self : (s : Swarm) (ms : List NodeId) → (set_peers s ms).self ≡ s.self
unfolding set_peers
set_peers-self s ms = refl

-- The demotion does not outlive a gap in the Audience: when a node is missing from one update and
-- back in a later one, the engine has an empty record of it, whatever it was demoted for.
pub set_peers_forgets :
    (s : Swarm) (n : NodeId) (without with_n : List NodeId)
    → n ≢ s.self
    → has n without ≡ false
    → has n with_n ≡ true
    → lookup n (set_peers (set_peers s without) with_n).peers ≡ some empty_info
set_peers_forgets s n without with_n ne gone back = ground (
  arith,
  lookup-set_peers (set_peers s without) with_n n,
  lookup-set_peers s without n,
  ==_iff n s.self,
  set_peers-self s without,
)
