-- ===== src/Coordinator/Consistent/Joining.antt =====
-- Joining a party keeps a coordinator's parts together.
use p2p_hls.Prelude.{
  ◌≡◌, refl, ◌∙◌, GoString, Bool, true, false, ◌&&◌, if◌then◌else◌, Bool-cases, inl, inr, List, [],
  ◌++◌, map, Option, none, some, string_eq, ◌==◌, ==_iff, arith,
}
use p2p_hls.Party.Types.{NodeId}
use p2p_hls.Party.Viewer.{Viewer, new_viewer}
use p2p_hls.Session.{Session, new_session, set_party_id, set_session_peers}
use p2p_hls.Coordinator.{Coordinator, Effect, connects, stop_session, begin_viewer}
use p2p_hls.Coordinator.Join.{Welcome, seeded, join_mesh}
use p2p_hls.Coordinator.Consistent.{IsConsistent, Meshed, loosened}

seeded-host :
    (c : Coordinator) (host : NodeId) (content_id : GoString) (w : Welcome)
    → (seeded c host content_id w).0.host ≡ host
unfolding seeded set_party_id new_session set_session_peers
seeded-host c host content_id w = ground arith

pub begin_viewer-IsConsistent :
    {t : Bool} (c : Coordinator) (host : NodeId)
    → IsConsistent t c
    → IsConsistent false (begin_viewer c host)
unfolding begin_viewer
begin_viewer-IsConsistent {t} c host k = record {
  meshed =
      loosened t c.connected c.viewer (some (new_viewer c.cfg)) c.viewer_host host c.swarm k.meshed;
  following = tt;
  beating = k.beating;
}

-- Whether a mesh session for `host` that is put in now has its viewer engine.
abbrev pub is_viewing : Option Viewer → Bool
is_viewing none = false
is_viewing (some v) = true

entered :
    (b : Bool) (v : Option Viewer) (host followed : NodeId) (ss : Session)
    → ss.host ≡ host
    → b ≡ true
    → Meshed (host == followed && is_viewing v) b v followed (some ss)
entered b v host followed ss e on = elim (Bool-cases (host == followed)) [
  | inr q ↦ rw q on
  | inl q ↦ rw q (at v q)
]
  where
    at :
        (v : Option Viewer)
        → (host == followed) ≡ true
        → Meshed (is_viewing v) b v followed (some ss)
    at none q = on
    at (some v) q = (e ∙ (==_iff host followed).0 q, on)

pub join_mesh-IsConsistent :
    {t : Bool} (c : Coordinator) (host : NodeId) (content_id : GoString) (w : Welcome)
    → IsConsistent t c
    → IsConsistent
        (if c.connected then host == c.viewer_host && is_viewing c.viewer else t)
        (join_mesh c host content_id w).0
unfolding join_mesh
join_mesh-IsConsistent {t} c host content_id w k = choose c.connected refl
  where
    choose :
        (b : Bool)
        → c.connected ≡ b
        → IsConsistent
            (if b then host == c.viewer_host && is_viewing c.viewer else t)
            (if◌then◌else◌ {A = Coordinator × List Effect} b
              (
                record c { swarm = some (seeded c host content_id w).0 },
                stop_session c.swarm ++ map connects (seeded c host content_id w).1,
              )
              (c, [])).0
    choose true e = record {
      meshed =
          entered c.connected c.viewer host c.viewer_host (seeded c host content_id w).0
            (seeded-host c host content_id w) e;
      following = k.following;
      beating = k.beating;
    }
    choose false e = k
