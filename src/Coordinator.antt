-- ===== src/Coordinator.antt =====
-- internal/app/party.go: the coordinator of the party that a node hosts or views. It holds the
-- engines, routes what the peers and the browser send, and says what goes out.
-- Each entry point reads and writes the coordinator under its mutex; here an entry point is one
-- step. The sender is the node itself, so that it can also carry the mesh; a coordinator that is not
-- `connected` has none. `allowed` is the access policy, none while it is not installed.
pub mod Join
pub mod Chat
pub mod Events
pub mod Consistent
pub mod Strangers
pub mod Playback
pub mod Admission
use p2p_hls.Prelude.{
  ℕ, GoString, bytes, Bool, true, false, not, ◌&&◌, ◌||◌, if◌then◌else◌, ℤ, pos, List, [], ◌∷◌,
  ◌++◌, map, length, Option, none, some, string_eq, ◌==◌,
}
use p2p_hls.Party.Types.{NodeId, Time, Config, State, Action, Member, unit_rate}
use p2p_hls.Party.Host.{
  Host, new_host, on_play, on_pause, on_seek, on_report, tick, members, viewer_count, snapshot,
  join, leave, member,
}
use p2p_hls.Party.Viewer.{Viewer, new_viewer, on_state, on_rtt, decide}
use p2p_hls.Party.Danmaku.{DanmakuGate, new_danmaku_gate, Runes}
use p2p_hls.Session.{Session, Answer, swarm_segment, on_swarm_have, set_session_peers}

pub record Coordinator : Type 0 where
  pub connected : Bool
  pub self : NodeId
  pub cfg : Config
  pub allowed : Option (NodeId → Bool)
  pub host : Option Host
  pub viewer : Option Viewer
  pub viewer_host : NodeId
  pub swarm : Option Session
  pub last_audience : List Member
  pub heartbeats : Bool
  pub gate : DanmakuGate
  pub page : Bool

-- The messages that the coordinator sends.
pub data Envelope : Type 0 where
  party_state : State → Envelope
  party_audience : GoString → List Member → Envelope
  party_ended : GoString → GoString → Envelope
  leave_party : GoString → Envelope
  party_danmaku : GoString → NodeId → GoString → Runes → Envelope

-- What an entry point does besides changing the coordinator: it sends a message, pushes a Danmaku
-- to the watch page, calls a callback, connects to a peer or stops the gossip of a mesh session.
pub data Effect : Type 0 where
  sends : NodeId → Envelope → Effect
  pushes : Runes → GoString → Effect
  audience_changed : Effect
  party_over : Effect
  connects : NodeId → Effect
  stops : Session → Effect

unfoldable pub new_party_coordinator : Bool → NodeId → Config → Coordinator
new_party_coordinator connected self cfg = record {
  connected = connected;
  self = self;
  cfg = cfg;
  allowed = none;
  host = none;
  viewer = none;
  viewer_host = [];
  swarm = none;
  last_audience = [];
  heartbeats = false;
  gate = new_danmaku_gate cfg;
  page = false;
}

unfoldable pub set_allowed : Coordinator → (NodeId → Bool) → Coordinator
set_allowed c fn = record c { allowed = some fn }

-- One message to every member of a host's Audience.
unfoldable pub to_all : Host → Envelope → List Effect
to_all h env = map (λ m. sends m.node_id env) (members h)

unfoldable pub start_party : Coordinator → GoString → Time → Coordinator × GoString
start_party c content_id now =
    let pid = c.self ++ bytes ":" ++ content_id in
    (record c { host = some (new_host now c.cfg pid content_id); heartbeats = true }, pid)

unfoldable pub end_party : Coordinator → GoString → Coordinator × List Effect
end_party c reason = (
  record c { host = none; heartbeats = false },
  elim c.host [
    | none ↦ []
    | some h ↦ if c.connected then to_all h (party_ended h.party_id reason) else []
  ],
)

abbrev pub stop_session : Option Session → List Effect
stop_session none = []
stop_session (some ss) = stops ss ∷ []

unfoldable pub close : Coordinator → Coordinator × List Effect
close c = (record c { heartbeats = false; swarm = none }, stop_session c.swarm)

-- The party id of the mesh session, empty without one.
abbrev pub party_id_of : Option Session → GoString
party_id_of none = []
party_id_of (some ss) = ss.party_id

unfoldable pub leave_party_of : Coordinator → Coordinator × List Effect
leave_party_of c = (
  record c { viewer = none; swarm = none; viewer_host = [] },
  elim c.viewer [
    | none ↦ []
    | some v ↦
        (if c.connected then sends c.viewer_host (leave_party (party_id_of c.swarm)) ∷ [] else [])
        ++ stop_session c.swarm
  ],
)

unfoldable pub begin_viewer : Coordinator → NodeId → Coordinator
begin_viewer c host = record c { viewer = some (new_viewer c.cfg); viewer_host = host }

-- Whether the title is live, and with how many viewers.
unfoldable pub live_party : Coordinator → GoString → Bool × ℕ
live_party c content_id = elim c.host [
  | none ↦ (false, 0)
  | some h ↦ if h.content_id == content_id then (true, viewer_count h) else (false, 0)
]

unfoldable pub on_party_state : Coordinator → NodeId → State → Time → Coordinator
on_party_state c remote s now = elim c.viewer [
  | none ↦ c
  | some v ↦ if remote == c.viewer_host then record c { viewer = some (on_state v s now) } else c
]

unfoldable pub on_party_audience : Coordinator → NodeId → List Member → Coordinator × List Effect
on_party_audience c remote ms = elim c.swarm [
  | none ↦ (record c { last_audience = ms }, [])
  | some ss ↦
      let (ss', dialled) = set_session_peers ss (map (λ m. m.node_id) ms) in
      (
        record c { last_audience = ms; swarm = some ss' },
        map connects dialled ++ audience_changed ∷ [],
      )
]

unfoldable pub on_party_ended : Coordinator → NodeId → Coordinator × List Effect
on_party_ended c remote =
    if remote == c.viewer_host
    then (
      record c { viewer = none; swarm = none; viewer_host = [] },
      stop_session c.swarm ++ party_over ∷ [],
    )
    else (c, [])

-- One tick of the heartbeat, while it runs.
unfoldable pub heartbeat : Coordinator → Time → Coordinator × List Effect
heartbeat c now = elim c.host [
  | none ↦ (c, [])
  | some h ↦
      if c.heartbeats && c.connected
      then (let (h', st, committed) = tick h now in
          (record c { host = some h' }, to_all h' (party_state st)))
      else (c, [])
]

unfoldable pub broadcast_audience : Coordinator → Host → List Effect
broadcast_audience c h =
    if c.connected
    then to_all h (party_audience h.party_id (members h)) ++ audience_changed ∷ []
    else []

unfoldable pub on_leave_party : Coordinator → NodeId → Coordinator × List Effect
on_leave_party c remote = elim c.host [
  | none ↦ (c, [])
  | some h ↦ (record c { host = some (leave h remote) }, broadcast_audience c (leave h remote))
]

unfoldable pub coordinator_have : Coordinator → NodeId → ℕ → List ℕ → ℕ → Time → Coordinator
coordinator_have c remote base bitmap epoch now = elim c.swarm [
  | none ↦ c
  | some ss ↦ record c { swarm = some (on_swarm_have ss remote base bitmap epoch now) }
]

-- The answer is none for `ErrUnavailable`.
unfoldable pub coordinator_segment : Coordinator → GoString → Coordinator × Option Answer
coordinator_segment c name = elim c.swarm [
  | none ↦ (c, none)
  | some ss ↦ let (ss', a) = swarm_segment ss name in (record c { swarm = some ss' }, some a)
]

unfoldable pub swarm_for : Coordinator → NodeId → GoString → Option Session
swarm_for c host content_id = elim c.swarm [
  | none ↦ none
  | some ss ↦ if ss.host == host && ss.content_id == content_id then some ss else none
]

pub data Role : Type 0 where
  no_party hosting viewing : Role

pub record CurrentParty : Type 0 where
  pub role : Role
  pub host : NodeId
  pub content_id : GoString
  pub viewers : ℕ

unfoldable pub current_party : Coordinator → CurrentParty
current_party c = elim c.host [
  | some h ↦ record {
    role = hosting;
    host = c.self;
    content_id = h.content_id;
    viewers = viewer_count h;
  }
  | none ↦ elim c.viewer [
    | none ↦ record { role = no_party; host = []; content_id = []; viewers = 0 }
    | some v ↦ record {
      role = viewing;
      host = c.viewer_host;
      content_id = elim c.swarm [ none ↦ [] | some ss ↦ ss.content_id ];
      viewers = length c.last_audience;
    }
  ]
]

unfoldable pub audience_view : Coordinator → List Member
audience_view c = elim c.host [ none ↦ c.last_audience | some h ↦ members h ]

unfoldable pub viewer_decide : Coordinator → ℤ → Bool → Time → Action
viewer_decide c position playing now = elim c.viewer [
  | none ↦ record {
    play = playing;
    seek = false;
    seek_ms = pos 0;
    rate = unit_rate;
    drift_ms = pos 0;
  }
  | some v ↦ decide v position playing now
]

-- `rtt` is the measured round trip to the Host, none if the measurement fails.
unfoldable pub refresh_viewer_rtt : Coordinator → Option ℤ → Coordinator
refresh_viewer_rtt c rtt = elim c.viewer [
  | none ↦ c
  | some v ↦ elim rtt [
    | none ↦ c
    | some d ↦ if c.connected then record c { viewer = some (on_rtt v d) } else c
  ]
]
