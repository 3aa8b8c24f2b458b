-- ===== src/Node.antt =====
-- internal/app/node.go: which session a node has to each other node, who dials, and where a playlist
-- or a Segment is taken from. A session is seen from the node here: which one it is, how often it was
-- started as the initiator, the signals that were handed to its `HandleSignal` (Peer/Binding says what
-- it does with one), the latest first, whether it is ready, and which handlers are installed on it.
pub mod Glare
pub mod Moves
pub mod Histories
use p2p_hls.Prelude.{
  ℕ, ◌+◌, Bool, true, false, not, ◌&&◌, ◌||◌, if◌then◌else◌, ◌==◌, string_eq, GoString, bytes,
  str_ltb, has_suffix, List, [], ◌∷◌, Option, none, some, Map, map_some, lookup, insert, map, any,
}
use p2p_hls.Peer.Binding.{SignedSignal}

pub record Link : Type 0 where
  pub serial : ℕ
  pub handed : List SignedSignal
  pub starts : ℕ
  pub is_ready : Bool
  pub serves_catalog : Bool
  pub serves_media : Bool
  pub serves_party : Bool

-- `made` counts the sessions that were made: a session's serial tells it from all others.
pub record Node : Type 0 where
  pub self : GoString
  pub made : ℕ
  pub sessions : Map GoString Link
  pub catalog : Bool
  pub media : Bool
  pub party : Bool

-- The node that `NewNode` makes: the party coordinator is there before the first relay.
unfoldable pub new_node : GoString → Node
new_node self = record {
  self = self;
  made = 0;
  sessions = [];
  catalog = false;
  media = false;
  party = true;
}

-- What `sessionFor` returns: an error, the session that was there, or a new one.
pub data Found : Type 0 where
  no_session known_session new_session : Found

-- A session as `sessionFor` makes it, with the handlers of the services that there are.
abbrev pub new_link : Node → Link
new_link n = record {
  serial = n.made;
  handed = [];
  starts = 0;
  is_ready = false;
  serves_catalog = n.catalog;
  serves_media = n.media;
  serves_party = n.party;
}

unfoldable pub create : Node → GoString → Node
create n remote = record n { made = n.made + 1; sessions = insert remote (new_link n) n.sessions }

-- `fails`: whether a peer connection cannot be made.
unfoldable pub session_for : Node → GoString → Bool → Node × Found
session_for n remote fails = elim (lookup remote n.sessions) [
  | some link ↦ (n, known_session)
  | none ↦ if fails then (n, no_session) else (create n remote, new_session)
]

-- A change of the session to a node, if there is one.
unfoldable pub update : GoString → (Link → Link) → Node → Node
update remote f n = record n {
  sessions = elim (lookup remote n.sessions) [
    | none ↦ n.sessions
    | some link ↦ insert remote (f link) n.sessions
  ];
}

unfoldable pub start : Link → Link
start link = record link { starts = link.starts + 1 }

-- `Dial` up to its wait: none if it has failed already, else it waits for the session to be ready.
unfoldable pub dial_found : GoString → Bool → Node × Found → Node × Bool
dial_found remote start_fails (n, no_session) = (n, false)
dial_found remote start_fails (n, known_session) = (n, true)
dial_found remote start_fails (n, new_session) = (update remote start n, not start_fails)

unfoldable pub dial : Node → GoString → Bool → Bool → Node × Bool
dial n remote fails start_fails = dial_found remote start_fails (session_for n remote fails)

unfoldable pub should_dial : GoString → GoString → Bool
should_dial self peer = str_ltb self peer

-- What `ensurePeer` sets off: nothing, a `Dial` on a goroutine, or a nudge to the peer.
pub data Ensured : Type 0 where
  there dials_peer nudges_peer : Ensured

unfoldable pub ensure_peer : Node → GoString → Ensured
ensure_peer n peer = elim (lookup peer n.sessions) [
  | some link ↦ there
  | none ↦ if should_dial n.self peer then dials_peer else nudges_peer
]

-- `peerSession` never waits: a session that is ready, or none and what is set off for the next time.
unfoldable pub peer_session : Node → GoString → Bool × Ensured
peer_session n peer = elim (lookup peer n.sessions) [
  | some link ↦ (link.is_ready, there)
  | none ↦ (false, ensure_peer n peer)
]

-- `session` returns whatever session is there, ready or not, and dials only if there is none.
unfoldable pub session : Node → GoString → Bool → Bool → Node × Bool
session n remote fails start_fails = elim (lookup remote n.sessions) [
  | some link ↦ (n, true)
  | none ↦ dial n remote fails start_fails
]

-- A relay that has been decoded (`peer.DecodeRelay`).
pub data Relayed : Type 0 where
  signal_relay : SignedSignal → Relayed
  swarm_dial_relay unknown_relay : Relayed

-- Whether a nudge from a node is followed by a `Dial`.
unfoldable pub heeds : Node → GoString → Relayed → Bool
heeds n from swarm_dial_relay = should_dial n.self from
heeds n from (signal_relay sig) = false
heeds n from unknown_relay = false

-- `sess.HandleSignal(sig)`, if there is a session.
unfoldable pub hand : SignedSignal → Link → Link
hand sig link = record link { handed = sig ∷ link.handed }

unfoldable pub signal_found : GoString → SignedSignal → Node × Found → Node
signal_found from sig (n, no_session) = n
signal_found from sig (n, known_session) = update from (hand sig) n
signal_found from sig (n, new_session) = update from (hand sig) n

-- One relay of `routeRelays`; the `Dial` of a nudge is run to its wait.
unfoldable pub route_relay : Node → GoString → Relayed → Bool → Bool → Node
route_relay n from (signal_relay sig) fails start_fails =
    signal_found from sig (session_for n from fails)
route_relay n from swarm_dial_relay fails start_fails =
    if should_dial n.self from then (dial n from fails start_fails).0 else n
route_relay n from unknown_relay fails start_fails = n

unfoldable pub set_catalog : Node → Node
set_catalog n = record n {
  catalog = true;
  sessions = map (λ e. (e.0, record e.1 { serves_catalog = true })) n.sessions;
}

unfoldable pub set_media : Node → Node
set_media n = record n {
  media = true;
  sessions = map (λ e. (e.0, record e.1 { serves_media = true })) n.sessions;
}

-- The peer's handshake.
unfoldable pub becomes_ready : Link → Link
becomes_ready link = record link { is_ready = true }

-- `Sees`, in the list of those that are present.
unfoldable pub sees : List GoString → GoString → Bool
sees peers remote = any (λ p. p == remote) peers

-- Where `Playlist` and `Segment` take their bytes from. `local`: whether the media service answers
-- for the owner's own library; `in_swarm`: whether there is a swarm session for the Title.
pub data Origin : Type 0 where
  own_library swarm_session remote_host : Origin

unfoldable pub playlist_origin : Node → Bool → GoString → Origin
playlist_origin n local host = if host == n.self && local then own_library else remote_host

unfoldable pub segment_origin : Node → Bool → Bool → GoString → Origin
segment_origin n local in_swarm host =
    if host == n.self && local then own_library else if in_swarm then swarm_session else remote_host

-- `Thumbnail`: only the own library is served; otherwise not found.
unfoldable pub thumbnail_origin : Node → Bool → GoString → Option Origin
thumbnail_origin n local host = if host == n.self && local then some own_library else none

unfoldable pub content_type_for : GoString → GoString
content_type_for name =
    if has_suffix name (bytes ".ts")
    then bytes "video/mp2t"
    else (if has_suffix name (bytes ".vtt")
        then bytes "text/vtt"
        else bytes "application/octet-stream")
