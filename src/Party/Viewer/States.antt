-- ===== src/Party/Viewer/States.antt =====
-- Which of the received states a Viewer follows.
use p2p_hls.Prelude.{
  ◌≤◌, ◌<◌, ◌≡◌, refl, sym, ap₂, subst, ◌⊎◌, inl, inr, true, List, [], ◌∷◌, ◌++◌, All, arith,
}
use p2p_hls.Party.Types.{Time, State, Config}
use p2p_hls.Party.Viewer.{Viewer, new_viewer, on_state, on_states}

-- Of the states that arrived, the viewer follows one, from its arrival on: those before it have lower
-- sequence numbers, and those after it no higher ones.
abbrev pub Leads : Viewer → List (State × Time) → Type 0
Leads v [] = ⊥
Leads v (e ∷ r) =
    ((v.last ≡ e.0) × (v.recv_at ≡ e.1) × All (λ x. x.0.seq ≤ v.last.seq) r)
    ⊎ ((e.0.seq < v.last.seq) × Leads v r)

-- One state either is stale and changes nothing, or is followed from then on.
on_state-cases :
    (v : Viewer) (s : State) (now : Time)
    → v.have_state ≡ true
    → ((on_state v s now ≡ v) × (s.seq ≤ v.last.seq))
      ⊎ (((on_state v s now).last ≡ s)
          × ((on_state v s now).recv_at ≡ now)
          × (v.last.seq < s.seq)
          × ((on_state v s now).have_state ≡ true))
unfolding on_state
on_state-cases v s now h = ground arith

head_no_higher :
    (v : Viewer) (e : State × Time) (r : List (State × Time))
    → Leads v (e ∷ r)
    → e.0.seq ≤ v.last.seq
head_no_higher v e r (inl (l, at, k)) = ground arith
head_no_higher v e r (inr (lt, k)) = omega arith

after_stale :
    (v : Viewer) (e x : State × Time) (r : List (State × Time))
    → x.0.seq ≤ e.0.seq
    → Leads v (e ∷ r)
    → Leads v (e ∷ x ∷ r)
after_stale v e x r le (inl (l, at, k)) = inl (l, at, (ground arith, k))
after_stale v e x r le (inr (lt, k)) = inr (lt, inr (omega arith, k))

on_states_from :
    (v : Viewer) (r : List (State × Time))
    → v.have_state ≡ true
    → Leads (on_states v r) ((v.last, v.recv_at) ∷ r)
unfolding on_states
on_states_from v [] h = inl (refl, refl, tt)
on_states_from v ((s, now) ∷ r) h = elim (on_state-cases v s now h) [
  | inl (e, stale) ↦
      subst (λ w. Leads (on_states w r) ((v.last, v.recv_at) ∷ (s, now) ∷ r)) (sym e)
        (after_stale (on_states v r) (v.last, v.recv_at) (s, now) r stale (on_states_from v r h))
  | inr (e, at, newer, held) ↦
      let k = on_states_from (on_state v s now) r held in
      let there =
        subst (λ x. Leads (on_states (on_state v s now) r) (x ∷ r)) (ap₂ (λ a b. (a, b)) e at) k in
      inr (ground (arith, e, newer, head_no_higher _ _ r k), there)
]

-- A new viewer that received some states, in whatever order and as often as the channel gave them,
-- follows the first of those that have the highest sequence number, from the time at which that one
-- came: all that came before it have lower numbers, and none that came after it, a later report under
-- the same number included, has put anything else in its place.
pub on_states-Leads :
    (cfg : Config) (s : State) (now : Time) (r : List (State × Time))
    → Leads (on_states (new_viewer cfg) ((s, now) ∷ r)) ((s, now) ∷ r)
unfolding on_states on_state new_viewer
on_states-Leads cfg s now r = on_states_from _ r refl

-- A state with the sequence number that a viewer already follows changes nothing in it, whatever
-- it says: what it plays, the position and the arrival time stay as they are.
pub on_state_same_seq :
    (v : Viewer) (s : State) (now : Time)
    → v.have_state ≡ true
    → s.seq ≡ v.last.seq
    → on_state v s now ≡ v
unfolding on_state
on_state_same_seq v s now h e = ground arith

pub on_states-append :
    (v : Viewer) (r q : List (State × Time)) → on_states v (r ++ q) ≡ on_states (on_states v r) q
unfolding on_states
on_states-append v [] q = refl
on_states-append v ((s, now) ∷ r) q = on_states-append (on_state v s now) r q
