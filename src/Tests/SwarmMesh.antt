-- ===== src/Tests/SwarmMesh.antt =====
-- internal/swarm/*_test.go, and the theorems on the mesh engine at inputs.
use p2p_hls.Prelude.{
  ℕ, ◌≡◌, ◌≢◌, refl, ap, ◌↔◌, inl, inr, true, false, not, ◌&&◌, if◌then◌else◌, pos, ◌-ℤ◌, low_bits,
  [], ◌∷◌, has, lookup, insert, bytes, In, some, none, int_eq, string_eq, str_beq, str_ltb, ◌==◌,
  arith,
}
use p2p_hls.Party.Types.{NodeId}
use p2p_hls.Swarm.Engine.{Swarm, PeerInfo, new, default_config}
use p2p_hls.Swarm.Haves.{
  set_have, have_segment, retain, bounds, zeros, or_at, set_bit, set_bits, encode, have_msg,
  byte_at, test_bit, decode_from, decode_bitmap,
}
use p2p_hls.Swarm.Haves.RoundTrip.{decode-have_msg}
use p2p_hls.Swarm.Peers.{
  hears, sets_peers, set_peers, wanted, admit_one, admit, peers, record_of, merge, on_peer_have,
  peer_has, update_peer, on_rtt, mark_busy, demote, step, run,
}
use p2p_hls.Swarm.Peers.Reconcile.{lookup-set_peers, kept_or_new}
use p2p_hls.Swarm.Peers.Merge.{peer_has-have_msg}
use p2p_hls.Swarm.Peers.Demotion.{IsDemoted, run-IsDemoted}
use p2p_hls.Swarm.Select.{
  eligible, rank, beats, next_best, select_from, select_source, gossip_targets, rtt_of,
  insert_before, stable_sort, draw, add_random,
}
use p2p_hls.Swarm.Select.Best.{Selected, select_source-Selected, select_source_order}
use p2p_hls.Swarm.Select.Draws.{InRange}
use p2p_hls.Swarm.Select.Gossip.{Targets, gossip_targets-Targets}

program : Unit {0}
unfolding new default_config set_have have_segment retain bounds zeros or_at set_bit set_bits encode
    have_msg byte_at test_bit decode_from decode_bitmap set_peers wanted admit_one admit peers
    record_of merge on_peer_have peer_has update_peer on_rtt mark_busy demote step run eligible rank
    beats next_best select_from select_source rtt_of insert_before stable_sort draw add_random
    gossip_targets has lookup insert str_beq str_ltb low_bits ◌-ℤ◌
program = tt

-- An engine that holds the Segments 3 and 12.
abbrev holder : Swarm
unfolding program
holder = set_have (set_have (new (bytes "n:a") default_config) (pos 3)) (pos 12)

encoded : have_msg holder ≡ (3, 1 ∷ 2 ∷ [], 2)
unfolding program
encoded = refl

decode-have_msg_example :
    has (pos 12) (decode_bitmap (have_msg holder).0 (have_msg holder).1) ≡ has (pos 12) holder.have
unfolding program
decode-have_msg_example =
    decode-have_msg holder (pos 12) ((omega arith, omega arith), ((omega arith, omega arith), tt))

-- An engine with three peers, of which two hold Segment 3.
abbrev meshed : Swarm
unfolding program
meshed = run (new (bytes "n:b") default_config) (
    sets_peers (bytes "n:a" ∷ bytes "n:b" ∷ bytes "n:c" ∷ [])
    ∷ hears (bytes "n:a") 3 (1 ∷ 2 ∷ []) 2 1000
    ∷ hears (bytes "n:c") 3 (1 ∷ []) 1 1001
    ∷ [])

lookup-set_peers_example :
    lookup (bytes "n:c") (set_peers meshed (bytes "n:a" ∷ bytes "n:c" ∷ [])).peers ≡ (
      if has (bytes "n:c") (bytes "n:a" ∷ bytes "n:c" ∷ []) && not (bytes "n:c" == meshed.self)
      then kept_or_new (lookup (bytes "n:c") meshed.peers) true
      else none)
lookup-set_peers_example = lookup-set_peers meshed (bytes "n:a" ∷ bytes "n:c" ∷ []) (bytes "n:c")

peer_has-have_msg_example :
    let (base, bitmap, epoch) = have_msg holder in
    peer_has
      (on_peer_have (new (bytes "n:b") default_config) (bytes "n:a") base bitmap epoch 7)
      (bytes "n:a")
      (pos 12)
    ≡ (if bytes "n:a" == bytes "n:a" then has (pos 12) holder.have else false)
unfolding program
peer_has-have_msg_example =
    peer_has-have_msg holder (new (bytes "n:b") default_config) (bytes "n:a") (pos 12) 7
      ((omega arith, omega arith), ((omega arith, omega arith), tt)) (omega arith)

ac_apart : bytes "n:a" ≢ bytes "n:b"
unfolding byte_at
ac_apart e = no_code (ap (λ s. byte_at s 2) e)
  where
    no_code : ◌≡◌ {A = ℕ} 97 98 → ⊥
    no_code h = omega arith

run-IsDemoted_example : IsDemoted (
    lookup
      (bytes "n:a")
      (run
        (demote meshed (bytes "n:a"))
        (hears (bytes "n:a") 3 (1 ∷ []) 9 3000 ∷ sets_peers (bytes "n:a" ∷ []) ∷ [])).peers)
unfolding program
run-IsDemoted_example =
    run-IsDemoted (bytes "n:a") (demote meshed (bytes "n:a"))
      (hears (bytes "n:a") 3 (1 ∷ []) 9 3000 ∷ sets_peers (bytes "n:a" ∷ []) ∷ []) ac_apart
      (tt, (refl, tt)) refl

ca_apart : ◌≡◌ {A = NodeId} (bytes "n:c") (bytes "n:a") → ⊥
unfolding byte_at
ca_apart e = no_code (ap (λ s. byte_at s 2) e)
  where
    no_code : ◌≡◌ {A = ℕ} 99 97 → ⊥
    no_code h = omega arith

-- TestSelectSourceTieBreakIsLowestNodeID
selects : select_source meshed (pos 3) 5000 ≡ some (bytes "n:a")
unfolding program
selects = refl

select_source-Selected_example : Selected meshed (pos 3) 5000 (select_source meshed (pos 3) 5000)
select_source-Selected_example = select_source-Selected meshed (pos 3) 5000

-- The same records in the other order.
abbrev reordered : Swarm
unfolding program
reordered = run (new (bytes "n:b") default_config) (
    sets_peers (bytes "n:c" ∷ bytes "n:a" ∷ [])
    ∷ hears (bytes "n:c") 3 (1 ∷ []) 1 1001
    ∷ hears (bytes "n:a") 3 (1 ∷ 2 ∷ []) 2 1000
    ∷ [])

flip : {A : Type 0} → (a b e : A) → In e (a ∷ b ∷ []) → In e (b ∷ a ∷ [])
flip a b e h = elim h [
  | inl x ↦ inr (inl x)
  | inr k ↦ elim k [ inl x ↦ inl x | inr z ↦ elim z [ ] ]
]

same_records : (e : NodeId × PeerInfo) → In e meshed.peers ↔ In e reordered.peers
unfolding program
same_records e = (flip _ _ e, flip _ _ e)

select_source_order_example :
    select_source meshed (pos 3) 5000 ≡ select_source reordered (pos 3) 5000
select_source_order_example = select_source_order meshed reordered (pos 3) 5000 same_records

zero_draws : InRange (λ i n. 0)
zero_draws i n h = h

-- With more peers than the fanout, and one of the targets drawn at random.
abbrev crowded : Swarm
crowded = record meshed { cfg = record meshed.cfg { fanout = 1; random_links = 1 } }

gossip_targets-Targets_example : Targets crowded (gossip_targets (λ i n. 0) crowded)
unfolding program
gossip_targets-Targets_example =
    gossip_targets-Targets (λ i n. 0) crowded zero_draws
      ((λ h. elim h [ inl e ↦ ca_apart e | inr z ↦ z ]), ((λ h. h), tt))
