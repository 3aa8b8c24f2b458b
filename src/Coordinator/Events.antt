-- ===== src/Coordinator/Events.antt =====
-- The inputs of a coordinator: calls of the local API, messages of peers, messages of the browser
-- (`serveHostWS` of internal/app/party.go), ticks. The socket's own goroutines are not modelled.
use p2p_hls.Prelude.{GoString, Bool, ℕ, ℤ, List, [], ◌∷◌, Option, none, some}
use p2p_hls.Party.Types.{NodeId, Time, State, Member}
use p2p_hls.Party.Host.{Host, on_play, on_pause, on_seek, on_report}
use p2p_hls.Party.Danmaku.{Runes}
use p2p_hls.Coordinator.{
  Coordinator, begin_viewer, start_party, end_party, close, leave_party_of, on_party_state,
  on_party_audience, on_party_ended, heartbeat, on_leave_party, coordinator_have,
  coordinator_segment, refresh_viewer_rtt,
}
use p2p_hls.Coordinator.Join.{Welcome, join_mesh, on_join_party}
use p2p_hls.Coordinator.Chat.{on_party_danmaku}

-- What the watch page of a Host reports.
pub data PlayerMsg : Type 0 where
  play pause seek report : ℤ → PlayerMsg

unfoldable pub to_engine : Host → PlayerMsg → Time → Host
to_engine h (play p) now = on_play h p now
to_engine h (pause p) now = on_pause h p now
to_engine h (seek p) now = on_seek h p now
to_engine h (report p) now = on_report h p now

unfoldable pub player_msg : Coordinator → PlayerMsg → Time → Coordinator
player_msg c m now = elim c.host [
  | none ↦ c
  | some h ↦ record c { host = some (to_engine h m now) }
]

-- A connection of a watch page is made, or goes.
unfoldable pub set_page : Coordinator → Bool → Coordinator
set_page c open_page = record c { page = open_page }

pub data Input : Type 0 where
  starts : GoString → Input
  quits : GoString → Input
  closes : Input
  leaves_host : Input
  begins_join : NodeId → Input
  enters_mesh : NodeId → GoString → Welcome → Input
  joined_by : NodeId → GoString → Input
  left_by : NodeId → Input
  gets_state : NodeId → State → Input
  gets_audience : NodeId → List Member → Input
  gets_ended : NodeId → Input
  gets_danmaku : NodeId → GoString → Runes → Input
  gets_have : NodeId → ℕ → List ℕ → ℕ → Input
  gets_pull : GoString → Input
  plays : PlayerMsg → Input
  watches : Bool → Input
  beats : Input
  measures : Option ℤ → Input

-- `JoinParty` after its RPC, which is none for an error: the inputs that it comes to, one for each time
-- that it takes the mutex. Others may come between them.
unfoldable pub join_party : NodeId → GoString → Option Welcome → List Input
join_party host content_id none = []
join_party host content_id (some w) =
    begins_join host
    ∷ enters_mesh host content_id w
    ∷ (elim w.initial [ none ↦ [] | some s ↦ gets_state host s ∷ [] ])

module _ (graphemes : Runes → List Runes) where
  unfoldable pub step : Coordinator → Input → Time → Coordinator
  step c (starts content_id) now = (start_party c content_id now).0
  step c (quits reason) now = (end_party c reason).0
  step c closes now = (close c).0
  step c leaves_host now = (leave_party_of c).0
  step c (begins_join host) now = begin_viewer c host
  step c (enters_mesh host content_id w) now = (join_mesh c host content_id w).0
  step c (joined_by remote content_id) now = (on_join_party c remote content_id now).0
  step c (left_by remote) now = (on_leave_party c remote).0
  step c (gets_state remote s) now = on_party_state c remote s now
  step c (gets_audience remote ms) now = (on_party_audience c remote ms).0
  step c (gets_ended remote) now = (on_party_ended c remote).0
  step c (gets_danmaku remote display body) now =
      (on_party_danmaku graphemes c remote display body now).0
  step c (gets_have remote base bitmap epoch) now = coordinator_have c remote base bitmap epoch now
  step c (gets_pull name) now = (coordinator_segment c name).0
  step c (plays m) now = player_msg c m now
  step c (watches open_page) now = set_page c open_page
  step c beats now = (heartbeat c now).0
  step c (measures rtt) now = refresh_viewer_rtt c rtt

  unfoldable pub run : Coordinator → List (Input × Time) → Coordinator
  run c [] = c
  run c ((i, now) ∷ is) = run (step c i now) is
