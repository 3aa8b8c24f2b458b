-- ===== src/Coordinator/Consistent.antt =====
-- How the parts of a coordinator hang together.
pub mod Viewing
pub mod Hosting
pub mod Joining
pub mod Histories
use p2p_hls.Prelude.{
  ℕ, ◌≡◌, refl, ap, ◌∙◌, GoString, Bool, true, false, not, ◌&&◌, if◌then◌else◌, Bool-cases,
  Option-cases, inl, inr, ℤ, List, [], ◌∷◌, ◌++◌, map, Option, none, some, string_eq, ◌==◌, arith,
}
use p2p_hls.Party.Types.{NodeId, Time, State, Member, Config}
use p2p_hls.Party.Host.{Host, tick, join, snapshot, members}
use p2p_hls.Party.Viewer.{Viewer, new_viewer, on_state, on_rtt}
use p2p_hls.Party.Danmaku.{Runes}
use p2p_hls.Session.{
  Session, new_session, set_party_id, set_session_peers, on_swarm_have, swarm_segment,
}
use p2p_hls.Coordinator.{
  Coordinator, Effect, connects, stop_session, party_state, to_all, broadcast_audience,
  new_party_coordinator, start_party, end_party, close, leave_party_of, begin_viewer,
  on_party_state, on_party_audience, on_party_ended, heartbeat, on_leave_party, coordinator_have,
  coordinator_segment, refresh_viewer_rtt,
}
use p2p_hls.Coordinator.Join.{
  Welcome, seeded, join_mesh, Admission, no_such_party, denied, welcomes, is_allowed, on_join_party,
}
use p2p_hls.Coordinator.Chat.{host_danmaku, on_party_danmaku}
use p2p_hls.Coordinator.Events.{
  PlayerMsg, player_msg, set_page, Input, starts, quits, closes, leaves_host, begins_join,
  enters_mesh, joined_by, left_by, gets_state, gets_audience, gets_ended, gets_danmaku, gets_have,
  gets_pull, plays, watches, beats, measures, step, run,
}

-- A mesh session needs a connection; and the mesh session and the viewer engine, while they are in
-- step, are of one party: it pulls from, and falls back to, the Host that is followed.
abbrev pub Meshed : Bool → Bool → Option Viewer → NodeId → Option Session → Type 0
Meshed in_step connected v host none = Unit
Meshed false connected v host (some ss) = connected ≡ true
Meshed true connected none host (some ss) = ⊥
Meshed true connected (some v) host (some ss) = (ss.host ≡ host) × (connected ≡ true)

-- Without a viewer engine there is no Host to follow, and heartbeats go out only for a hosted party.
abbrev pub Following : Option Viewer → NodeId → Type 0
Following none host = host ≡ []
Following (some v) host = Unit

abbrev pub Beating : Option Host → Bool → Type 0
Beating none heartbeats = heartbeats ≡ false
Beating (some h) heartbeats = Unit

pub record IsConsistent (in_step : Bool) (c : Coordinator) : Type 0 where
  pub meshed : Meshed in_step c.connected c.viewer c.viewer_host c.swarm
  pub following : Following c.viewer c.viewer_host
  pub beating : Beating c.host c.heartbeats

pub renewed :
    (t b : Bool) (o : Option Viewer) (v u : Viewer) (host : NodeId) (s : Option Session)
    → o ≡ some v
    → Meshed t b o host s
    → Meshed t b (some u) host s
renewed t b o v u host none e m = tt
renewed false b o v u host (some ss) e m = m
renewed true b none v u host (some ss) e m = elim m [ ]
renewed true b (some x) v u host (some ss) e m = m

-- What is left when the viewer goes out of step.
pub loosened :
    (t b : Bool) (v u : Option Viewer) (host other : NodeId) (s : Option Session)
    → Meshed t b v host s
    → Meshed false b u other s
loosened t b v u host other none m = tt
loosened false b v u host other (some ss) m = m
loosened true b none u host other (some ss) m = elim m [ ]
loosened true b (some v) u host other (some ss) m = m.1

pub beat_off : (o : Option Host) → Beating o false
beat_off none = refl
beat_off (some h) = tt

swapped :
    (t b : Bool) (v : Option Viewer) (host : NodeId) (ss other : Session) (s : Option Session)
    → s ≡ some ss
    → other.host ≡ ss.host
    → Meshed t b v host s
    → Meshed t b v host (some other)
swapped t b v host ss other none e h m = absurd (cc e)
swapped false b v host ss other (some x) e h m = m
swapped true b none host ss other (some x) e h m = m
swapped true b (some v) host ss other (some x) e h m =
    (h ∙ ap (λ (t : Session). t.host) (same e) ∙ m.0, m.1)
  where
    same : some x ≡ some ss → ss ≡ x
    same q = cc

pub session_swapped :
    {t : Bool} (c : Coordinator) (ss ss' : Session)
    → c.swarm ≡ some ss
    → ss'.host ≡ ss.host
    → IsConsistent t c
    → IsConsistent t (record c { swarm = some ss' })
session_swapped {t} c ss ss' e h w = record {
  meshed = swapped t c.connected c.viewer c.viewer_host ss ss' c.swarm e h w.meshed;
  following = w.following;
  beating = w.beating;
}
