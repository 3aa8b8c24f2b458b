-- ===== src/Coordinator/Join.antt =====
-- `JoinParty`, a Viewer's side, and `OnJoinParty`, the Host's, of internal/app/party.go.
use p2p_hls.Prelude.{
  GoString, Bool, true, not, if◌then◌else◌, List, [], ◌++◌, map, Option, none, some, string_eq,
  ◌==◌,
}
use p2p_hls.Party.Types.{NodeId, Time, State, Member}
use p2p_hls.Party.Host.{join, snapshot, members}
use p2p_hls.Swarm.Engine.{default_config}
use p2p_hls.Session.{Session, new_session, set_party_id, set_session_peers}
use p2p_hls.Coordinator.{Coordinator, Effect, connects, stop_session, broadcast_audience}

-- A welcome as a Viewer receives it; the initial state and the Audience may be missing.
pub record Welcome : Type 0 where
  pub party_id : GoString
  pub initial : Option State
  pub audience : Option (List Member)

-- The new mesh session, its peers seeded from the Audience, and the peers that it connects to.
unfoldable pub seeded : Coordinator → NodeId → GoString → Welcome → Session × List NodeId
seeded c host content_id w =
    let ss = set_party_id (new_session c.self host content_id default_config) w.party_id in
    elim w.audience [ none ↦ (ss, []) | some ms ↦ set_session_peers ss (map (λ m. m.node_id) ms) ]

-- The second critical section of `JoinParty`: the swap of the mesh session, with the close of the old
-- one and the seeding of the new one, which follow it outside the mutex, before the gossip starts. That
-- an Audience message comes between the swap and the seeding is not modelled.
unfoldable pub join_mesh : Coordinator → NodeId → GoString → Welcome → Coordinator × List Effect
join_mesh c host content_id w =
    if c.connected
    then (let (ss, dialled) = seeded c host content_id w in
        (record c { swarm = some ss }, stop_session c.swarm ++ map connects dialled))
    else (c, [])

-- What the Host answers to a node that wants to join.
pub data Admission : Type 0 where
  no_such_party : Admission
  denied : Admission
  welcomes : GoString → State → List Member → Admission

-- The policy, which lets everybody in while it is not installed.
unfoldable pub is_allowed : Coordinator → NodeId → Bool
is_allowed c remote = elim c.allowed [ none ↦ true | some fn ↦ fn remote ]

unfoldable pub on_join_party :
    Coordinator → NodeId → GoString → Time → Coordinator × Admission × List Effect
on_join_party c remote content_id now = elim c.host [
  | none ↦ (c, no_such_party, [])
  | some h ↦
      if not (h.content_id == content_id)
      then (c, no_such_party, [])
      else if not (is_allowed c remote)
      then (c, denied, [])
      else (let h' = join h remote remote in
          (
            record c { host = some h' },
            welcomes h'.party_id (snapshot h' now) (members h'),
            broadcast_audience c h',
          ))
]
