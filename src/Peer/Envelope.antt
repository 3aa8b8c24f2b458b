-- ===== src/Peer/Envelope.antt =====
-- The control channel's messages (proto/peer/v1/peer.proto). A message that this model only passes on
-- is its wire bytes: the metadata of titles, welcomes and invitations.
use p2p_hls.Prelude.{ℕ, GoString, Bool, List}
use p2p_hls.Party.Types.{State, Member}
use p2p_hls.Peer.Errors.{Status, PeerError, status_of}

abbrev pub Wire : Type 0
Wire = List ℕ

pub data Body : Type 0 where
  unset : Body
  handshake : ℕ → List GoString → Body
  ping pong : GoString → Body
  browse get_live_parties access_granted ack : Body
  catalog live_parties : List Wire → Body
  get_metadata request_access download join_party leave_party : GoString → Body
  title_meta party_welcome party_invite : Wire → Body
  failure : Status → GoString → Body
  get_playlist get_segment : GoString → GoString → Body
  playlist : List ℕ → GoString → Bool → Body
  party_state : State → Body
  party_audience : List Member → Body
  party_ended : GoString → GoString → Body
  party_danmaku : GoString → GoString → GoString → GoString → Body
  swarm_have : GoString → GoString → ℕ → List ℕ → ℕ → Body
  get_swarm_segment : GoString → GoString → GoString → Body

pub record Envelope : Type 0 where
  pub request_id : ℕ
  pub body : Body

-- `errEnvelope`
unfoldable pub err_envelope : ℕ → PeerError → Envelope
err_envelope id e = record { request_id = id; body = failure (status_of e) e.text }
