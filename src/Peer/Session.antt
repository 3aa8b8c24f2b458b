-- ===== src/Peer/Session.antt =====
-- internal/peer/session.go, with party.go, swarm.go and framing.go: one connection to a remote node,
-- its state and its handlers, and `send`. What the data channels do with a message is a parameter
-- held in the connection: none if they take it, or the error of marshalling or sending.
pub mod Calls
pub mod Serve
pub mod Dispatch
pub mod Clients
pub mod RoundTrip
pub mod Answers
pub mod Fates
use p2p_hls.Prelude.{
  ℕ, ◌≡◌, refl, GoString, bytes, string_eq, Bool, true, false, ◌==◌, nat_eq, List, [], ◌∷◌, Option,
  none, some, Map, has,
}
use p2p_hls.Party.Types.{State, Member}
use p2p_hls.Peer.Errors.{PeerError}
use p2p_hls.Peer.Envelope.{Envelope, Body, handshake, Wire}
use p2p_hls.Peer.Bulk.Receive.{Sinks}
use p2p_hls.Peer.Bulk.Send.{Read}

pub data Result (A : Type 0) : Type 0 where
  ok : A → Result A
  err : PeerError → Result A

-- The handlers that the app installs. Each method may change the app's state, of the type `W`.
pub record RequestHandler (W : Type 0) : Type 0 where
  pub on_browse : GoString → W → W × Result (List Wire)
  pub on_metadata : GoString → GoString → W → W × Result Wire
  pub on_live_parties : GoString → W → W × Result (List Wire)
  pub on_request_access : GoString → GoString → W → W × Option PeerError

pub record MediaHandler (W : Type 0) : Type 0 where
  pub on_playlist : GoString → GoString → GoString → W → W × Result (List ℕ × GoString × Bool)
  pub on_segment : GoString → GoString → GoString → W → W × Result (List ℕ)
  pub on_open_file : GoString → GoString → W → W × Result (List Read)

pub record PartyHandler (W : Type 0) : Type 0 where
  pub on_join_party : GoString → GoString → W → W × Result Wire
  pub on_leave_party : GoString → GoString → W → W
  pub on_party_state : GoString → State → W → W
  pub on_party_audience : GoString → List Member → W → W
  pub on_party_invite : GoString → Wire → W → W
  pub on_party_ended : GoString → GoString → GoString → W → W
  pub on_party_danmaku : GoString → GoString → GoString → GoString → GoString → W → W

-- `on_swarm_segment` gives the bytes and the release that is called when they are sent.
pub record SwarmHandler (W : Type 0) : Type 0 where
  pub on_swarm_have : GoString → GoString → GoString → ℕ → List ℕ → ℕ → W → W
  pub on_swarm_segment :
      GoString → GoString → GoString → GoString → W → W × Result (List ℕ × (W → W))

pub record Handlers (W : Type 0) : Type 0 where
  pub handler : Option (RequestHandler W)
  pub on_access_granted : Option (GoString → W → W)
  pub media_handler : Option (MediaHandler W)
  pub party_handler : Option (PartyHandler W)
  pub swarm_handler : Option (SwarmHandler W)

-- `Session`. `issued` is the counter of `requestIDs`. `pending` holds the ids that are registered for
-- a reply, `mail` what is in the channels of the calls that still wait at theirs. `broken` are the
-- sinks that were unregistered after a failed write while the caller still waits at them.
pub record Conn : Type 0 where
  pub remote : GoString
  pub issued : ℕ
  pub control : Option (Envelope → Option PeerError)
  pub bulk : Option (ℕ → Option PeerError)
  pub is_ready : Bool
  pub pending : List ℕ
  pub mail : Map ℕ (Option Envelope)
  pub bulk_sinks : Sinks
  pub broken : Sinks
  pub remote_caps : List GoString

unfoldable pub new_session : GoString → Conn
new_session remote = record {
  remote = remote;
  issued = 0;
  control = none;
  bulk = none;
  is_ready = false;
  pending = [];
  mail = [];
  bulk_sinks = [];
  broken = [];
  remote_caps = [];
}

abbrev pub control_not_open : PeerError
control_not_open = record { is = none; text = bytes "peer: control channel not open" }

abbrev pub bulk_not_open : PeerError
bulk_not_open = record { is = none; text = bytes "peer: bulk channel not open" }

-- `send`: none if the message is on the wire.
unfoldable pub send : Conn → Envelope → Option PeerError
send c env = elim c.control [ none ↦ some control_not_open | some channel ↦ channel env ]

-- What `sendFrameFlow` meets at each frame: the channel, or none that is open.
unfoldable pub bulk_flow : Conn → ℕ → Option PeerError
bulk_flow c seq = elim c.bulk [ none ↦ some bulk_not_open | some flow ↦ flow seq ]

abbrev pub protocol_version : ℕ
protocol_version = 1

abbrev pub cap_party : GoString
cap_party = bytes "party/v1"

-- What the control channel's `OnOpen` sends.
unfoldable pub hello : Envelope
hello = record { request_id = 0; body = handshake protocol_version (cap_party ∷ []) }

-- A handshake that comes in: readiness is never taken back.
unfoldable pub on_handshake : Conn → ℕ → List GoString → Conn
on_handshake c version caps = elim (version == protocol_version) [
  | true ↦ record c { remote_caps = caps; is_ready = true }
  | false ↦ record c { remote_caps = caps }
]

unfoldable pub has_capability : Conn → GoString → Bool
has_capability c cap = has cap c.remote_caps
