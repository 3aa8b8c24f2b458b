-- ===== src/Coordinator/Consistent/Histories.antt =====
-- The parts of a coordinator stay together over any history.
use p2p_hls.Prelude.{refl, Bool, true, false, ◌&&◌, if◌then◌else◌, List, [], ◌∷◌, string_eq, ◌==◌}
use p2p_hls.Party.Types.{NodeId, Time, Config}
use p2p_hls.Party.Danmaku.{Runes}
use p2p_hls.Coordinator.{
  Coordinator, new_party_coordinator, start_party, end_party, close, leave_party_of,
}
use p2p_hls.Coordinator.Events.{
  set_page, Input, starts, quits, closes, leaves_host, begins_join, enters_mesh, joined_by, left_by,
  gets_state, gets_audience, gets_ended, gets_danmaku, gets_have, gets_pull, plays, watches, beats,
  measures, step, run,
}
use p2p_hls.Coordinator.Consistent.{IsConsistent, beat_off}
use p2p_hls.Coordinator.Consistent.Viewing.{
  on_party_state-IsConsistent, refresh_viewer_rtt-IsConsistent, on_party_audience-IsConsistent,
  on_party_ended-IsConsistent, coordinator_have-IsConsistent, coordinator_segment-IsConsistent,
}
use p2p_hls.Coordinator.Consistent.Hosting.{
  heartbeat-IsConsistent, on_leave_party-IsConsistent, player_msg-IsConsistent,
  on_join_party-IsConsistent, on_party_danmaku-IsConsistent,
}
use p2p_hls.Coordinator.Consistent.Joining.{
  is_viewing, begin_viewer-IsConsistent, join_mesh-IsConsistent,
}

-- Whether the mesh session and the viewer engine are in step after an input. A join takes them out of
-- step when it begins, and back into step when it puts the mesh session in, if its Host is followed
-- still; if another join, a leave or the end of the party came between, it puts in a mesh session that
-- is out of step. Without a mesh session they are in step again.
abbrev pub in_step : Bool → Coordinator → Input → Bool
in_step t c (begins_join host) = false
in_step t c (enters_mesh host content_id w) =
    if c.connected then host == c.viewer_host && is_viewing c.viewer else t
in_step t c (gets_ended remote) = if remote == c.viewer_host then true else t
in_step t c closes = true
in_step t c leaves_host = true
in_step t c (starts content_id) = t
in_step t c (quits reason) = t
in_step t c (joined_by remote content_id) = t
in_step t c (left_by remote) = t
in_step t c (gets_state remote s) = t
in_step t c (gets_audience remote ms) = t
in_step t c (gets_danmaku remote display body) = t
in_step t c (gets_have remote base bitmap epoch) = t
in_step t c (gets_pull name) = t
in_step t c (plays m) = t
in_step t c (watches open_page) = t
in_step t c beats = t
in_step t c (measures rtt) = t

module _ (graphemes : Runes → List Runes) where
  abbrev pub run_in_step : Bool → Coordinator → List (Input × Time) → Bool
  run_in_step t c [] = t
  run_in_step t c ((i, now) ∷ is) = run_in_step (in_step t c i) (step graphemes c i now) is

  step-IsConsistent :
      {t : Bool} (c : Coordinator) (i : Input) (now : Time)
      → IsConsistent t c
      → IsConsistent (in_step t c i) (step graphemes c i now)
  unfolding step start_party end_party close leave_party_of set_page
  step-IsConsistent c (starts content_id) now w = record {
    meshed = w.meshed;
    following = w.following;
    beating = tt;
  }
  step-IsConsistent c (quits reason) now w = record {
    meshed = w.meshed;
    following = w.following;
    beating = refl;
  }
  step-IsConsistent c closes now w = record {
    meshed = tt;
    following = w.following;
    beating = beat_off c.host;
  }
  step-IsConsistent c leaves_host now w = record {
    meshed = tt;
    following = refl;
    beating = w.beating;
  }
  step-IsConsistent c (begins_join host) now w = begin_viewer-IsConsistent c host w
  step-IsConsistent c (enters_mesh host content_id reply) now w =
      join_mesh-IsConsistent c host content_id reply w
  step-IsConsistent c (joined_by remote content_id) now w =
      on_join_party-IsConsistent c remote content_id now w
  step-IsConsistent c (left_by remote) now w = on_leave_party-IsConsistent c remote w
  step-IsConsistent c (gets_state remote s) now w = on_party_state-IsConsistent c remote s now w
  step-IsConsistent c (gets_audience remote ms) now w = on_party_audience-IsConsistent c remote ms w
  step-IsConsistent c (gets_ended remote) now w = on_party_ended-IsConsistent c remote w
  step-IsConsistent c (gets_danmaku remote display body) now w =
      on_party_danmaku-IsConsistent graphemes c remote display body now w
  step-IsConsistent c (gets_have remote base bitmap epoch) now w =
      coordinator_have-IsConsistent c remote base bitmap epoch now w
  step-IsConsistent c (gets_pull name) now w = coordinator_segment-IsConsistent c name w
  step-IsConsistent c (plays m) now w = player_msg-IsConsistent c m now w
  step-IsConsistent c (watches open_page) now w = record {
    meshed = w.meshed;
    following = w.following;
    beating = w.beating;
  }
  step-IsConsistent c beats now w = heartbeat-IsConsistent c now w
  step-IsConsistent c (measures rtt) now w = refresh_viewer_rtt-IsConsistent c rtt w

  run-IsConsistent :
      (t : Bool) (c : Coordinator) (is : List (Input × Time))
      → IsConsistent t c
      → IsConsistent (run_in_step t c is) (run graphemes c is)
  unfolding run
  run-IsConsistent t c [] w = w
  run-IsConsistent t c ((i, now) ∷ is) w =
      run-IsConsistent (in_step t c i) (step graphemes c i now) is (step-IsConsistent c i now w)

  -- Whatever a new coordinator is asked to do and told by peers, in whatever order, also between the
  -- steps of a join: a mesh session exists only with a connection, no Host is followed without a viewer
  -- engine, and heartbeats run only while a party is hosted. And while the mesh session and the viewer
  -- engine are in step, a mesh session exists only while a party is viewed and is bound to that party's
  -- Host. They are in step unless a join has begun that has not put its mesh session in, or one has put
  -- it in after another join, a leave or the end of the party had come between, and no later join, leave,
  -- close or end of the party has mended it.
  pub coordinator-IsConsistent :
      (connected : Bool) (self : NodeId) (cfg : Config) (is : List (Input × Time))
      → let c = new_party_coordinator connected self cfg in
        IsConsistent (run_in_step true c is) (run graphemes c is)
  unfolding new_party_coordinator
  coordinator-IsConsistent connected self cfg is =
      run-IsConsistent true (new_party_coordinator connected self cfg) is
        (record { meshed = tt; following = refl; beating = refl })
