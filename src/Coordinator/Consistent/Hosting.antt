-- ===== src/Coordinator/Consistent/Hosting.antt =====
-- What a Host does keeps a coordinator's parts together.
use p2p_hls.Prelude.{
  GoString, Bool, true, false, not, ◌&&◌, if◌then◌else◌, Option-cases, inl, inr, List, [], some,
  string_eq, ◌==◌, arith,
}
use p2p_hls.Party.Types.{NodeId, Time}
use p2p_hls.Party.Host.{Host, tick, join, snapshot, members}
use p2p_hls.Party.Danmaku.{Runes}
use p2p_hls.Coordinator.{
  Coordinator, Effect, party_state, to_all, broadcast_audience, heartbeat, on_leave_party,
}
use p2p_hls.Coordinator.Join.{Admission, no_such_party, denied, welcomes, is_allowed, on_join_party}
use p2p_hls.Coordinator.Chat.{host_danmaku, on_party_danmaku}
use p2p_hls.Coordinator.Events.{PlayerMsg, player_msg}
use p2p_hls.Coordinator.Consistent.{IsConsistent}

pub heartbeat-IsConsistent :
    {t : Bool} (c : Coordinator) (now : Time)
    → IsConsistent t c
    → IsConsistent t (heartbeat c now).0
unfolding heartbeat
heartbeat-IsConsistent {t} c now w = elim (Option-cases c.host) [
  | inl e ↦ rw (e, heartbeat) w
  | inr (h, e) ↦ rw (e, heartbeat) (choose h (c.heartbeats && c.connected))
]
  where
    choose :
        (h : Host) (b : Bool)
        → IsConsistent t
            (if◌then◌else◌ {A = Coordinator × List Effect} b
              (
                record c { host = some (tick h now).0 },
                to_all (tick h now).0 (party_state (tick h now).1),
              )
              (c, [])).0
    choose h true = record { meshed = w.meshed; following = w.following; beating = tt }
    choose h false = w

pub on_leave_party-IsConsistent :
    {t : Bool} (c : Coordinator) (remote : NodeId)
    → IsConsistent t c
    → IsConsistent t (on_leave_party c remote).0
unfolding on_leave_party
on_leave_party-IsConsistent {t} c remote w = elim (Option-cases c.host) [
  | inl e ↦ rw (e, on_leave_party) w
  | inr (h, e) ↦
      rw (e, on_leave_party) (record { meshed = w.meshed; following = w.following; beating = tt })
]

pub player_msg-IsConsistent :
    {t : Bool} (c : Coordinator) (m : PlayerMsg) (now : Time)
    → IsConsistent t c
    → IsConsistent t (player_msg c m now)
unfolding player_msg
player_msg-IsConsistent {t} c m now w = elim (Option-cases c.host) [
  | inl e ↦ rw (e, player_msg) w
  | inr (h, e) ↦
      rw (e, player_msg) (record { meshed = w.meshed; following = w.following; beating = tt })
]

pub on_join_party-IsConsistent :
    {t : Bool} (c : Coordinator) (remote : NodeId) (content_id : GoString) (now : Time)
    → IsConsistent t c
    → IsConsistent t (on_join_party c remote content_id now).0
unfolding on_join_party
on_join_party-IsConsistent {t} c remote content_id now w = elim (Option-cases c.host) [
  | inl e ↦ rw (e, on_join_party) w
  | inr (h, e) ↦ rw (e, on_join_party) (choose h (h.content_id == content_id) (is_allowed c remote))
]
  where
    choose :
        (h : Host) (same ok : Bool)
        → IsConsistent t
            (if◌then◌else◌ {A = Coordinator × Admission × List Effect}
              (not same)
              (c, no_such_party, [])
              (if not ok then (c, denied, []) else (
                record c { host = some (join h remote remote) },
                welcomes
                    (join h remote remote).party_id
                    (snapshot (join h remote remote) now)
                    (members (join h remote remote)),
                broadcast_audience c (join h remote remote),
              ))).0
    choose h false ok = w
    choose h true false = w
    choose h true true = record { meshed = w.meshed; following = w.following; beating = tt }

pub on_party_danmaku-IsConsistent :
    {t : Bool} (graphemes : Runes → List Runes) (c : Coordinator) (remote : NodeId)
    (display : GoString) (body : Runes) (now : Time)
    → IsConsistent t c
    → IsConsistent t (on_party_danmaku graphemes c remote display body now).0
unfolding on_party_danmaku host_danmaku
on_party_danmaku-IsConsistent {t} graphemes c remote display body now w = record {
  meshed = ground (arith, w.meshed);
  following = ground (arith, w.following);
  beating = ground (arith, w.beating);
}
