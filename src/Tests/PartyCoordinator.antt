-- ===== src/Tests/PartyCoordinator.antt =====
-- internal/app/party_test.go, and the theorems on the coordinator at inputs.
use p2p_hls.Prelude.{
  ℕ, ◌≡◌, ◌≢◌, refl, ap, bytes, true, false, pos, List, [], ◌∷◌, All, lookup, insert, some, none,
  has, map, map_some, string_eq, str_beq, arith,
}
use p2p_hls.Party.Types.{NodeId, Time, State, default_config}
use p2p_hls.Party.Host.{Host, new_host, join, snapshot, members}
use p2p_hls.Party.Danmaku.{Runes, allow}
use p2p_hls.Session.{Session}
use p2p_hls.Coordinator.{
  Coordinator, new_party_coordinator, start_party, begin_viewer, on_party_audience, on_party_ended,
}
use p2p_hls.Coordinator.Join.{Welcome, join_mesh, seeded, on_join_party, is_allowed}
use p2p_hls.Coordinator.Chat.{on_party_danmaku}
use p2p_hls.Coordinator.Events.{
  Input, starts, begins_join, enters_mesh, gets_state, gets_ended, gets_audience, join_party, step,
  run,
}
use p2p_hls.Coordinator.Consistent.{IsConsistent}
use p2p_hls.Coordinator.Consistent.Histories.{run_in_step, coordinator-IsConsistent}
use p2p_hls.Coordinator.Strangers.{on_party_audience_stranger, Relayed, on_party_danmaku-Relayed}
use p2p_hls.Coordinator.Playback.{states_of, viewer-run}
use p2p_hls.Party.Viewer.{on_states}
use p2p_hls.Coordinator.Admission.{Welcomed, on_join_party-Welcomed}
use p2p_hls.Session.{new_session, set_party_id, set_session_peers}

program : Unit {0}
unfolding run step on_party_ended new_party_coordinator start_party begin_viewer join_party
    join_mesh seeded on_join_party is_allowed new_host join members snapshot set_party_id
    new_session set_session_peers insert lookup has str_beq default_config
program = tt

abbrev idle : Coordinator
unfolding program
idle = new_party_coordinator true (bytes "n:h") default_config

abbrev single : Runes → List Runes
single [] = []
single (c ∷ s) = (c ∷ []) ∷ single s

abbrev hosting : Coordinator
unfolding program
hosting = (on_join_party (start_party idle (bytes "c") 1000).0 (bytes "n:v") (bytes "c") 2000).0

abbrev hosted : Host
unfolding program
hosted = join (new_host 1000 default_config (bytes "n:h:c") (bytes "c")) (bytes "n:v") (bytes "n:v")

on_party_danmaku-Relayed_example :
    let es = (on_party_danmaku single hosting (bytes "n:v") (bytes "x") (bytes "hi") 3000).1 in
    All (Relayed hosted (bytes "n:v")) es
    × (lookup (bytes "n:v") hosted.audience ≡ none → es ≡ [])
    × ((allow hosting.gate (bytes "n:v") 3000).1 ≡ false → es ≡ [])
unfolding program
on_party_danmaku-Relayed_example =
    on_party_danmaku-Relayed single hosting hosted (bytes "n:v") (bytes "x") (bytes "hi") 3000 refl

on_join_party-Welcomed_example :
    Welcomed
      (start_party idle (bytes "c") 1000).0
      (new_host 1000 default_config (bytes "n:h:c") (bytes "c"))
      (bytes "n:v")
      (bytes "c")
      2000
      (bytes "n:h:c")
      (snapshot hosted 2000)
      (members hosted)
unfolding program
on_join_party-Welcomed_example =
    on_join_party-Welcomed (start_party idle (bytes "c") 1000).0
      (new_host 1000 default_config (bytes "n:h:c") (bytes "c")) (bytes "n:v") (bytes "c") 2000
      (bytes "n:h:c") (snapshot hosted 2000) (members hosted) refl refl

-- A Viewer of n:h that has the peer n:a in its mesh.
abbrev welcome : Welcome
welcome = record {
  party_id = bytes "n:h:c";
  initial = none;
  audience = some (record { node_id = bytes "n:a"; display_name = [] } ∷ []);
}

abbrev mesh : Session
unfolding program
mesh = (seeded idle (bytes "n:h") (bytes "c") welcome).0

abbrev joining : List (Input × Time)
unfolding program
joining = map (λ i. (i, 1000)) (join_party (bytes "n:h") (bytes "c") (some welcome))

abbrev viewing : Coordinator
unfolding program
viewing = run single idle joining

-- A node that hosts, and joins another party.
coordinator-IsConsistent_example :
    IsConsistent
      (run_in_step single true idle ((starts (bytes "c"), 1000) ∷ joining))
      (run single idle ((starts (bytes "c"), 1000) ∷ joining))
unfolding program idle
coordinator-IsConsistent_example =
    coordinator-IsConsistent single true (bytes "n:h") default_config
      ((starts (bytes "c"), 1000) ∷ joining)

stays_in_step : run_in_step single true idle ((starts (bytes "c"), 1000) ∷ joining) ≡ true
unfolding program
stays_in_step = refl

-- The end of the party overtakes the second step of a join: a mesh session without a viewer is left.
abbrev overtaken : Coordinator
unfolding program
overtaken = run single idle (
    (begins_join (bytes "n:h"), 1000)
    ∷ (gets_ended (bytes "n:h"), 1001)
    ∷ (enters_mesh (bytes "n:h") (bytes "c") welcome, 1002)
    ∷ [])

mesh_is_left : (overtaken.viewer ≡ none) × (overtaken.swarm ≡ some mesh)
unfolding program
mesh_is_left = (refl, refl)

stranger : ◌≢◌ {A = NodeId} (bytes "n:x") (bytes "n:h")
stranger e = codes (third e)
  where
    third_of : NodeId → ℕ
    third_of (a ∷ b ∷ c ∷ r) = c
    third_of r = 0

    third : ◌≡◌ {A = NodeId} (bytes "n:x") (bytes "n:h") → ◌≡◌ {A = ℕ} 120 104
    third q = ap third_of q

    codes : ◌≡◌ {A = ℕ} 120 104 → ⊥
    codes q = omega arith

abbrev some_state : State
some_state = record {
  party_id = [];
  playing = true;
  position_ms = pos 5;
  rate = pos 1000000;
  seq = 9;
}

-- A state of the Host among messages of another node.
abbrev noise : List (Input × Time)
noise =
    (gets_state (bytes "n:x") some_state, 2000)
    ∷ (gets_ended (bytes "n:x"), 2001)
    ∷ (gets_state (bytes "n:h") some_state, 2002)
    ∷ (gets_audience (bytes "n:x") [], 2003)
    ∷ []

viewer-run_example :
    ((run single viewing noise).viewer
      ≡ map_some (λ v. on_states v (states_of viewing.viewer_host noise)) viewing.viewer)
    × ((run single viewing noise).viewer_host ≡ viewing.viewer_host)
unfolding program
viewer-run_example = viewer-run single viewing noise (tt, (stranger, (tt, (tt, tt))))

hears_host : states_of viewing.viewer_host noise ≡ (some_state, 2002) ∷ []
unfolding program
hears_host = refl

on_party_audience_stranger_example :
    (ss' : Session) × ((on_party_audience viewing (bytes "n:x") []).0.swarm ≡ some ss')
    × (lookup (bytes "n:a") ss'.eng.peers ≡ none)
unfolding program
on_party_audience_stranger_example =
    on_party_audience_stranger viewing (bytes "n:x") [] mesh (bytes "n:a") stranger refl refl
