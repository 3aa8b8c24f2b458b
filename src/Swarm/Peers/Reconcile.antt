-- ===== src/Swarm/Peers/Reconcile.antt =====
-- `SetPeers` makes the peer set the Audience without this node, and keeps what is known.
use p2p_hls.Prelude.{
  ◌≡◌, refl, ap, ◌∙◌, Bool, true, not, ◌&&◌, if◌then◌else◌, Bool-cases, inl, inr, List, [], ◌∷◌,
  has, has-select, lookup, lookup-insert, lookup-select, Option, none, some, Map, string_eq, ◌==◌,
  ==_iff, ==_refl, ◌||◌, arith,
}
use p2p_hls.Party.Types.{NodeId}
use p2p_hls.Swarm.Engine.{Swarm, PeerInfo, empty_info}
use p2p_hls.Swarm.Peers.{set_peers, wanted, admit, admit_one}

-- A known record stays; a node that is wanted and unknown gets an empty one.
abbrev pub kept_or_new : Option PeerInfo → Bool → Option PeerInfo
kept_or_new none want = if want then some empty_info else none
kept_or_new (some p) want = some p

kept_or_new_twice :
    (o : Option PeerInfo) (a b : Bool) → kept_or_new (kept_or_new o a) b ≡ kept_or_new o (a || b)
kept_or_new_twice none a b = ground arith
kept_or_new_twice (some p) a b = refl

lookup-admit_one :
    (n x : NodeId) (m : Map NodeId PeerInfo)
    → lookup n (admit_one x m) ≡ kept_or_new (lookup n m) (x == n)
unfolding admit_one
lookup-admit_one n x m = elim (Bool-cases (x == n)) [
  | inl e ↦ rw (e, (==_iff x n).0 e) (ground (arith, lookup-insert n n empty_info m, ==_refl n))
  | inr e ↦ ground (arith, lookup-insert x n empty_info m)
]

lookup-admit :
    (n : NodeId) (m : Map NodeId PeerInfo) (ms : List NodeId)
    → lookup n (admit m ms) ≡ kept_or_new (lookup n m) (has n ms)
unfolding admit has
lookup-admit n m [] = ground arith
lookup-admit n m (x ∷ ms) =
    lookup-admit n (admit_one x m) ms
    ∙ ap (λ o. kept_or_new o (has n ms)) (lookup-admit_one n x m)
    ∙ kept_or_new_twice (lookup n m) (x == n) (has n ms)

-- After `SetPeers` a node has a record exactly when it is in the Audience and is not this node;
-- the record is the one that it had, or an empty one.
pub lookup-set_peers :
    (s : Swarm) (ms : List NodeId) (n : NodeId)
    → lookup n (set_peers s ms).peers
      ≡ (if has n ms && not (n == s.self) then kept_or_new (lookup n s.peers) true else none)
unfolding set_peers wanted
lookup-set_peers s ms n =
    let want = wanted s.self ms in
    lookup-select n (λ k. has k want) (admit s.peers want)
    ∙ ground (arith, lookup-admit n s.peers want, has-select n (λ m. not (m == s.self)) ms)
