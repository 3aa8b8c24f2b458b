-- ===== src/Coordinator/Playback.antt =====
-- Whose messages a Viewer's playback follows.
use p2p_hls.Prelude.{
  ◌≡◌, ◌≢◌, refl, sym, ap, subst, ◌∙◌, Bool, true, false, if◌then◌else◌, Bool-cases, inl, inr, List,
  [], ◌∷◌, ◌++◌, Option, none, some, map_some, All, string_eq, ◌==◌, ==_iff, arith,
}
use p2p_hls.Party.Types.{NodeId, Time, State}
use p2p_hls.Party.Viewer.{Viewer, on_state, on_states}
use p2p_hls.Party.Viewer.States.{on_states-append}
use p2p_hls.Party.Danmaku.{Runes}
use p2p_hls.Coordinator.{
  Coordinator, start_party, end_party, close, on_party_state, on_party_audience, on_party_ended,
  heartbeat, on_leave_party, coordinator_have, coordinator_segment,
}
use p2p_hls.Coordinator.Join.{join_mesh, on_join_party}
use p2p_hls.Coordinator.Chat.{host_danmaku, on_party_danmaku}
use p2p_hls.Coordinator.Events.{
  player_msg, set_page, Input, starts, quits, closes, leaves_host, begins_join, enters_mesh,
  joined_by, left_by, gets_state, gets_audience, gets_ended, gets_danmaku, gets_have, gets_pull,
  plays, watches, beats, measures, step, run,
}

-- Anything but what this node itself does to the party that it views (joining another, leaving,
-- measuring the round trip), and the end of that party by its Host.
abbrev pub IsForeign : NodeId → Input → Type 0
IsForeign host (begins_join other) = ⊥
IsForeign host leaves_host = ⊥
IsForeign host (measures rtt) = ⊥
IsForeign host (gets_ended remote) = remote ≢ host
IsForeign host (starts content_id) = Unit
IsForeign host (quits reason) = Unit
IsForeign host closes = Unit
IsForeign host (enters_mesh other content_id w) = Unit
IsForeign host (joined_by remote content_id) = Unit
IsForeign host (left_by remote) = Unit
IsForeign host (gets_state remote s) = Unit
IsForeign host (gets_audience remote ms) = Unit
IsForeign host (gets_danmaku remote display body) = Unit
IsForeign host (gets_have remote base bitmap epoch) = Unit
IsForeign host (gets_pull name) = Unit
IsForeign host (plays m) = Unit
IsForeign host (watches open_page) = Unit
IsForeign host beats = Unit

-- The states that a node sent, with their arrivals.
abbrev heard : NodeId → Input → Time → List (State × Time)
heard host (gets_state remote s) now = if remote == host then (s, now) ∷ [] else []
heard host other now = []

abbrev pub states_of : NodeId → List (Input × Time) → List (State × Time)
states_of host [] = []
states_of host ((i, now) ∷ is) = heard host i now ++ states_of host is

-- The viewer engine takes the states, and the same Host is followed.
record Hears (states : List (State × Time)) (c c' : Coordinator) : Type 0 where
  viewer : c'.viewer ≡ map_some (λ v. on_states v states) c.viewer
  host : c'.viewer_host ≡ c.viewer_host

map_some_self : (o : Option Viewer) → o ≡ map_some (λ v. on_states v []) o
unfolding on_states
map_some_self none = refl
map_some_self (some v) = refl

unheard :
    {c c' : Coordinator} → c'.viewer ≡ c.viewer → c'.viewer_host ≡ c.viewer_host → Hears [] c c'
unheard {c} e h = record { viewer = e ∙ map_some_self c.viewer; host = h }

on_party_state-Hears :
    (c : Coordinator) (remote : NodeId) (s : State) (now : Time)
    → Hears
        (if remote == c.viewer_host then (s, now) ∷ [] else [])
        c
        (on_party_state c remote s now)
unfolding on_party_state on_states
on_party_state-Hears c remote s now = choose c.viewer refl (remote == c.viewer_host)
  where
    taken : Bool → Viewer → Viewer
    taken b v = on_states v (if b then (s, now) ∷ [] else [])

    choose :
        (o : Option Viewer)
        → c.viewer ≡ o
        → (b : Bool)
        → Hears (if b then (s, now) ∷ [] else []) c (elim o as (λ x. Coordinator) [
          | none ↦ c
          | some v ↦ if b then record c { viewer = some (on_state v s now) } else c
        ])
    choose none e b = record { viewer = e ∙ ap (map_some (taken b)) (sym e); host = refl }
    choose (some v) e true = record { viewer = ap (map_some (taken true)) (sym e); host = refl }
    choose (some v) e false = record {
      viewer = e ∙ ap (map_some (taken false)) (sym e);
      host = refl;
    }

on_party_ended-Hears :
    (c : Coordinator) (remote : NodeId)
    → remote ≢ c.viewer_host
    → Hears [] c (on_party_ended c remote).0
unfolding on_party_ended
on_party_ended-Hears c remote ne = elim (Bool-cases (remote == c.viewer_host)) [
  | inl q ↦ absurd (ne ((==_iff remote c.viewer_host).0 q))
  | inr q ↦ rw (q, on_party_ended) (unheard refl refl)
]

module _ (graphemes : Runes → List Runes) where
  step-Hears :
      (c : Coordinator) (i : Input) (now : Time)
      → IsForeign c.viewer_host i
      → Hears (heard c.viewer_host i now) c (step graphemes c i now)
  unfolding step start_party end_party close join_mesh on_join_party on_leave_party
      on_party_audience coordinator_have coordinator_segment player_msg set_page heartbeat
      on_party_danmaku host_danmaku
  step-Hears c (begins_join other) now f = elim f [ ]
  step-Hears c leaves_host now f = elim f [ ]
  step-Hears c (measures rtt) now f = elim f [ ]
  step-Hears c (gets_ended remote) now f = on_party_ended-Hears c remote f
  step-Hears c (gets_state remote s) now f = on_party_state-Hears c remote s now
  step-Hears c (starts content_id) now f = unheard refl refl
  step-Hears c (quits reason) now f = unheard refl refl
  step-Hears c closes now f = unheard refl refl
  step-Hears c (enters_mesh other content_id w) now f = unheard (ground arith) (ground arith)
  step-Hears c (joined_by remote content_id) now f = unheard (ground arith) (ground arith)
  step-Hears c (left_by remote) now f = unheard (ground arith) (ground arith)
  step-Hears c (gets_audience remote ms) now f = unheard (ground arith) (ground arith)
  step-Hears c (gets_danmaku remote display body) now f = unheard (ground arith) (ground arith)
  step-Hears c (gets_have remote base bitmap epoch) now f = unheard (ground arith) (ground arith)
  step-Hears c (gets_pull name) now f = unheard (ground arith) (ground arith)
  step-Hears c (plays m) now f = unheard (ground arith) (ground arith)
  step-Hears c (watches open_page) now f = unheard refl refl
  step-Hears c beats now f = unheard (ground arith) (ground arith)

  -- A Viewer's playback follows its Host, its whole Host and nobody else: over every history in which
  -- this node neither joins, leaves nor measures the round trip, and its Host does not end the party,
  -- the viewer engine ends as if it had taken just the playback states that its Host sent, in the order
  -- of their arrival, whatever other nodes sent in between: states and ends of parties, Audiences, haves,
  -- pulls and Danmaku, joins and leaves. And the same Host is followed.
  pub viewer-run :
      (c : Coordinator) (is : List (Input × Time))
      → All (λ (e : Input × Time). IsForeign c.viewer_host e.0) is
      → ((run graphemes c is).viewer
          ≡ map_some (λ v. on_states v (states_of c.viewer_host is)) c.viewer)
        × ((run graphemes c is).viewer_host ≡ c.viewer_host)
  unfolding run
  viewer-run c [] f = (map_some_self c.viewer, refl)
  viewer-run c ((i, now) ∷ is) f =
      let h = step-Hears c i now f.0 in
      let c' = step graphemes c i now in
      let r =
        viewer-run c' is
          (subst (λ n. All (λ (e : Input × Time). IsForeign n e.0) is) (sym h.host) f.1) in
      (
        r.0
            ∙ ap (λ n. map_some (λ v. on_states v (states_of n is)) c'.viewer) h.host
            ∙ ap (map_some (λ v. on_states v (states_of c.viewer_host is))) h.viewer
            ∙ joined c.viewer,
        r.1 ∙ h.host,
      )
    where
      joined :
          (o : Option Viewer)
          → map_some
              (λ v. on_states v (states_of c.viewer_host is))
              (map_some (λ v. on_states v (heard c.viewer_host i now)) o)
            ≡ map_some
                (λ v. on_states v (heard c.viewer_host i now ++ states_of c.viewer_host is))
                o
      joined none = refl
      joined (some v) =
          ap some
            (sym (on_states-append v (heard c.viewer_host i now) (states_of c.viewer_host is)))
