-- ===== src/Coordinator/Consistent/Viewing.antt =====
-- The messages that a Viewer takes keep a coordinator's parts together.
use p2p_hls.Prelude.{
  ℕ, ◌≡◌, refl, GoString, Bool, true, false, if◌then◌else◌, Bool-cases, Option-cases, inl, inr, ℤ,
  List, map, Option, none, some, string_eq, ◌==◌, arith,
}
use p2p_hls.Party.Types.{NodeId, Time, State, Member}
use p2p_hls.Party.Viewer.{Viewer, on_state, on_rtt}
use p2p_hls.Session.{Session, set_session_peers, on_swarm_have, swarm_segment}
use p2p_hls.Coordinator.{
  Coordinator, on_party_state, on_party_audience, on_party_ended, coordinator_have,
  coordinator_segment, refresh_viewer_rtt,
}
use p2p_hls.Coordinator.Consistent.{IsConsistent, renewed, session_swapped}

pub on_party_state-IsConsistent :
    {t : Bool} (c : Coordinator) (remote : NodeId) (s : State) (now : Time)
    → IsConsistent t c
    → IsConsistent t (on_party_state c remote s now)
unfolding on_party_state
on_party_state-IsConsistent {t} c remote s now w = elim (Option-cases c.viewer) [
  | inl e ↦ rw (e, on_party_state) w
  | inr (v, e) ↦ elim (Bool-cases (remote == c.viewer_host)) [
    | inl q ↦
        rw (e, q, on_party_state)
          (record {
            meshed =
                renewed t c.connected c.viewer v (on_state v s now) c.viewer_host c.swarm e
                  w.meshed;
            following = tt;
            beating = w.beating;
          })
    | inr q ↦ rw (e, q, on_party_state) w
  ]
]

pub refresh_viewer_rtt-IsConsistent :
    {t : Bool} (c : Coordinator) (rtt : Option ℤ)
    → IsConsistent t c
    → IsConsistent t (refresh_viewer_rtt c rtt)
unfolding refresh_viewer_rtt
refresh_viewer_rtt-IsConsistent {t} c none w = elim (Option-cases c.viewer) [
  | inl e ↦ rw (e, refresh_viewer_rtt) w
  | inr (v, e) ↦ rw (e, refresh_viewer_rtt) w
]
refresh_viewer_rtt-IsConsistent {t} c (some d) w = elim (Option-cases c.viewer) [
  | inl e ↦ rw (e, refresh_viewer_rtt) w
  | inr (v, e) ↦ rw (e, refresh_viewer_rtt) (choose v e c.connected)
]
  where
    choose :
        (v : Viewer)
        → c.viewer ≡ some v
        → (b : Bool) → IsConsistent t (if b then record c { viewer = some (on_rtt v d) } else c)
    choose v e true = record {
      meshed = renewed t c.connected c.viewer v (on_rtt v d) c.viewer_host c.swarm e w.meshed;
      following = tt;
      beating = w.beating;
    }
    choose v e false = w

set_session_peers-host :
    (ss : Session) (ms : List NodeId) → (set_session_peers ss ms).0.host ≡ ss.host
unfolding set_session_peers
set_session_peers-host ss ms = refl

on_swarm_have-host :
    (ss : Session) (n : NodeId) (base : ℕ) (bitmap : List ℕ) (epoch : ℕ) (now : Time)
    → (on_swarm_have ss n base bitmap epoch now).host ≡ ss.host
unfolding on_swarm_have
on_swarm_have-host ss n base bitmap epoch now = refl

swarm_segment-host : (ss : Session) (name : GoString) → (swarm_segment ss name).0.host ≡ ss.host
unfolding swarm_segment
swarm_segment-host ss name = ground arith

pub on_party_audience-IsConsistent :
    {t : Bool} (c : Coordinator) (remote : NodeId) (ms : List Member)
    → IsConsistent t c
    → IsConsistent t (on_party_audience c remote ms).0
unfolding on_party_audience
on_party_audience-IsConsistent {t} c remote ms w = elim (Option-cases c.swarm) [
  | inl e ↦
      rw (e, on_party_audience)
        (record { meshed = w.meshed; following = w.following; beating = w.beating })
  | inr (ss, e) ↦
      rw (e, on_party_audience)
        (let k =
            session_swapped c ss (set_session_peers ss (map (λ m. m.node_id) ms)).0 e
              (set_session_peers-host ss _) w in
          record { meshed = k.meshed; following = w.following; beating = w.beating })
]

pub on_party_ended-IsConsistent :
    {t : Bool} (c : Coordinator) (remote : NodeId)
    → IsConsistent t c
    → IsConsistent (if remote == c.viewer_host then true else t) (on_party_ended c remote).0
unfolding on_party_ended
on_party_ended-IsConsistent {t} c remote w = elim (Bool-cases (remote == c.viewer_host)) [
  | inl q ↦ rw (q, on_party_ended) (record { meshed = tt; following = refl; beating = w.beating })
  | inr q ↦ rw (q, on_party_ended) w
]

pub coordinator_have-IsConsistent :
    {t : Bool} (c : Coordinator) (n : NodeId) (base : ℕ) (bitmap : List ℕ) (epoch : ℕ) (now : Time)
    → IsConsistent t c
    → IsConsistent t (coordinator_have c n base bitmap epoch now)
unfolding coordinator_have
coordinator_have-IsConsistent {t} c n base bitmap epoch now w = elim (Option-cases c.swarm) [
  | inl e ↦ rw (e, coordinator_have) w
  | inr (ss, e) ↦
      rw (e, coordinator_have)
        (session_swapped c ss _ e (on_swarm_have-host ss n base bitmap epoch now) w)
]

pub coordinator_segment-IsConsistent :
    {t : Bool} (c : Coordinator) (name : GoString)
    → IsConsistent t c
    → IsConsistent t (coordinator_segment c name).0
unfolding coordinator_segment
coordinator_segment-IsConsistent {t} c name w = elim (Option-cases c.swarm) [
  | inl e ↦ rw (e, coordinator_segment) w
  | inr (ss, e) ↦
      rw (e, coordinator_segment) (session_swapped c ss _ e (swarm_segment-host ss name) w)
]
