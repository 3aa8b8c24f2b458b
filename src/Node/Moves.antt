-- ===== src/Node/Moves.antt =====
-- The events of a node, and the ways in which one of them changes its sessions.
use p2p_hls.Prelude.{
  ◌≤◌, ◌≡◌, refl, sym, ap, ◌∙◌, Bool, true, false, if◌then◌else◌, Bool-cases, Option-cases, inl,
  inr, ◌==◌, ==_iff, string_eq, GoString, List, [], ◌∷◌, Option, none, some, map_some, lookup,
  lookup-insert, ◌++◌,
}
use p2p_hls.Peer.Binding.{SignedSignal}
use p2p_hls.Node.{
  Node, Link, no_session, new_session, new_link, create, session_for, update, start, dial,
  dial_found, should_dial, Relayed, signal_relay, swarm_dial_relay, unknown_relay, route_relay,
  set_catalog, set_media, becomes_ready, hand, signal_found,
}

-- What happens at a node: a dial of its own, a relay from a node, a session's handshake, and the
-- installing of the services. The Booleans say whether a peer connection cannot be made, and whether
-- an offer cannot be sent.
pub data NodeEvent : Type 0 where
  dials_to : GoString → Bool → Bool → NodeEvent
  relayed : GoString → Relayed → Bool → Bool → NodeEvent
  readies : GoString → NodeEvent
  installs_catalog installs_media : NodeEvent

unfoldable pub node_step : Node → NodeEvent → Node
node_step n (dials_to remote fails start_fails) = (dial n remote fails start_fails).0
node_step n (relayed from r fails start_fails) = route_relay n from r fails start_fails
node_step n (readies remote) = update remote becomes_ready n
node_step n installs_catalog = set_catalog n
node_step n installs_media = set_media n

unfoldable pub node_run : Node → List NodeEvent → Node
node_run n [] = n
node_run n (e ∷ es) = node_run (node_step n e) es

-- A session as the node's services and its own history have it.
pub record IsServed (n : Node) (link : Link) : Type 0 where
  pub catalog : link.serves_catalog ≡ n.catalog
  pub media : link.serves_media ≡ n.media
  pub party : link.serves_party ≡ n.party
  pub once : link.starts ≤ 1

abbrev pub IsServedAt : Node → Option Link → Type 0
IsServedAt n none = Unit
IsServedAt n (some link) = IsServed n link

-- Every session that is there.
abbrev pub AllServed : Node → Type 0
AllServed n = (r : GoString) → IsServedAt n (lookup r n.sessions)

-- A session that is there, kept by what follows: it is the same one, was not started again, is still
-- ready if it was, and has been handed what it was handed before, in the same order.
pub record IsKept (link link' : Link) : Type 0 where
  pub serial : link'.serial ≡ link.serial
  pub starts : link'.starts ≡ link.starts
  pub handed : (more : List SignedSignal) × (link'.handed ≡ more ++ link.handed)
  pub ready : link.is_ready ≡ true → link'.is_ready ≡ true

abbrev pub IsKeptAt : Option Link → Option Link → Type 0
IsKeptAt none o = Unit
IsKeptAt (some link) none = ⊥
IsKeptAt (some link) (some link') = IsKept link link'

pub lookup-update :
    (r remote : GoString) (f : Link → Link) (n : Node)
    → lookup r (update remote f n).sessions
      ≡ (if remote == r then map_some f (lookup r n.sessions) else lookup r n.sessions)
unfolding update
lookup-update r remote f n = elim (Option-cases (lookup remote n.sessions)) [
  | inl e ↦ elim (Bool-cases (remote == r)) [
    | inl q ↦ let e' = same q ∙ e in rw (e, update, q, e') refl
    | inr q ↦ rw (e, update, q) refl
  ]
  | inr (link, e) ↦ elim (Bool-cases (remote == r)) [
    | inl q ↦
        let e' = same q ∙ e in
        rw (e, update, lookup-insert remote r (f link) n.sessions, q, e') refl
    | inr q ↦ rw (e, update, lookup-insert remote r (f link) n.sessions, q) refl
  ]
]
  where
    same : (remote == r) ≡ true → lookup r n.sessions ≡ lookup remote n.sessions
    same q = ap (λ k. lookup k n.sessions) (sym ((==_iff remote r).0 q))

pub lookup-create :
    (r remote : GoString) (n : Node)
    → lookup r (create n remote).sessions
      ≡ (if remote == r then some (new_link n) else lookup r n.sessions)
unfolding create
lookup-create r remote n = lookup-insert remote r (new_link n) n.sessions

pub IsKept-refl : (link : Link) → IsKept link link
IsKept-refl link = record { serial = refl; starts = refl; handed = ([], refl); ready = λ h. h }

-- A change of a session that keeps it and its handlers.
pub record Harmless (f : Link → Link) : Type 0 where
  pub kept : (link : Link) → IsKept link (f link)
  pub catalog : (link : Link) → (f link).serves_catalog ≡ link.serves_catalog
  pub media : (link : Link) → (f link).serves_media ≡ link.serves_media
  pub party : (link : Link) → (f link).serves_party ≡ link.serves_party

ready-Harmless : Harmless becomes_ready
unfolding becomes_ready
ready-Harmless = record {
  kept = λ link. record { serial = refl; starts = refl; handed = ([], refl); ready = λ h. refl };
  catalog = λ link. refl;
  media = λ link. refl;
  party = λ link. refl;
}

hand-Harmless : (sig : SignedSignal) → Harmless (hand sig)
unfolding hand
hand-Harmless sig = record {
  kept = λ link. record { serial = refl; starts = refl; handed = (sig ∷ [], refl); ready = λ h. h };
  catalog = λ link. refl;
  media = λ link. refl;
  party = λ link. refl;
}

-- The ways in which one event changes the sessions.
pub data Move : Node → Node → Type 0 where
  stays : {n n' : Node} → n' ≡ n → Move n n'
  creates : {n n' : Node} (r : GoString) → lookup r n.sessions ≡ none → n' ≡ create n r → Move n n'
  creates_and_starts :
      {n n' : Node} (r : GoString)
      → lookup r n.sessions ≡ none
      → n' ≡ update r start (create n r)
      → Move n n'
  changes :
      {n n' : Node} (r : GoString) (f : Link → Link) → Harmless f → n' ≡ update r f n → Move n n'
  has_catalog : {n n' : Node} → n' ≡ set_catalog n → Move n n'
  has_media : {n n' : Node} → n' ≡ set_media n → Move n n'
  follows : {n m n' : Node} → Move n m → Move m n' → Move n n'

signal-Move :
    (n : Node) (r : GoString) (sig : SignedSignal) (fails : Bool)
    → Move n (signal_found r sig (session_for n r fails))
unfolding session_for signal_found
signal-Move n r sig fails = elim (Option-cases (lookup r n.sessions)) [
  | inr (link, e) ↦ rw (e, session_for) (changes r (hand sig) (hand-Harmless sig) refl)
  | inl e ↦ rw (e, session_for) (new fails e)
]
  where
    new :
        (b : Bool)
        → lookup r n.sessions ≡ none
        → Move n (signal_found r sig (if b then (n, no_session) else (create n r, new_session)))
    new true e = stays refl
    new false e = follows (creates r e refl) (changes r (hand sig) (hand-Harmless sig) refl)

dial-Move :
    (n : Node) (r : GoString) (fails start_fails : Bool) → Move n (dial n r fails start_fails).0
unfolding dial session_for dial_found
dial-Move n r fails start_fails = elim (Option-cases (lookup r n.sessions)) [
  | inr (link, e) ↦ rw (e, dial, session_for) (stays refl)
  | inl e ↦ rw (e, dial, session_for) (new fails e)
]
  where
    new :
        (b : Bool)
        → lookup r n.sessions ≡ none
        → Move n
            (dial_found r start_fails (if b then (n, no_session) else (create n r, new_session))).0
    new true e = stays refl
    new false e = creates_and_starts r e refl

pub node_step-Move : (n : Node) (e : NodeEvent) → Move n (node_step n e)
unfolding node_step route_relay
node_step-Move n (dials_to r fails start_fails) = dial-Move n r fails start_fails
node_step-Move n (relayed from (signal_relay sig) fails start_fails) = signal-Move n from sig fails
node_step-Move n (relayed from unknown_relay fails start_fails) = stays refl
node_step-Move n (relayed from swarm_dial_relay fails start_fails) =
    nudged (should_dial n.self from)
  where
    nudged : (b : Bool) → Move n (if b then (dial n from fails start_fails).0 else n)
    nudged true = dial-Move n from fails start_fails
    nudged false = stays refl
node_step-Move n (readies r) = changes r becomes_ready ready-Harmless refl
node_step-Move n installs_catalog = has_catalog refl
node_step-Move n installs_media = has_media refl

pub lookup-started :
    (r remote : GoString) (n : Node)
    → lookup r (update remote start (create n remote)).sessions
      ≡ (if remote == r then some (start (new_link n)) else lookup r n.sessions)
lookup-started r remote n = elim (Bool-cases (remote == r)) [
  | inl q ↦
      lookup-update r remote start (create n remote) ∙ rw (q, lookup-create r remote n, q) refl
  | inr q ↦
      lookup-update r remote start (create n remote) ∙ rw (q, lookup-create r remote n, q) refl
]
