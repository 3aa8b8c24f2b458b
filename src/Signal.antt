-- ===== src/Signal.antt =====
-- internal/signalserver/server.go: the signaling server's presence table and its routing.
-- A connection is a number; two clients are the same object exactly if their connections are. A
-- client's queue is its buffered channel of 32 messages. The cryptography of a registration is an
-- argument; the socket loops and JSON are not modelled.
pub mod Presence
use p2p_hls.Prelude.{
  ℕ, GoString, Bool, true, false, not, ◌&&◌, if◌then◌else◌, eqb, ltb, List, [], ◌∷◌, ◌++◌, map,
  select, length, Map, lookup, insert, delete, Option, none, some, string_eq, ◌==◌,
}

pub record PeerInfo : Type 0 where
  pub node_id : GoString
  pub public_key : List ℕ
  pub display_name : GoString

pub record Register : Type 0 where
  pub info : PeerInfo
  pub signature : List ℕ

-- The messages that the server puts into a queue.
pub data Message : Type 0 where
  presence_join : PeerInfo → Message
  presence_leave : GoString → Message
  relay : GoString → GoString → List ℕ → Message

pub record Client : Type 0 where
  pub info : PeerInfo
  pub send : List Message
  pub conn : ℕ

abbrev pub Server : Type 0
Server = Map GoString Client

-- `node_id_of` is the identity package's id of a key, `verify` its signature check.
unfoldable pub valid_register :
    (List ℕ → GoString) → (List ℕ → List ℕ → List ℕ → Bool) → Register → List ℕ → Bool
valid_register node_id_of verify reg nonce =
    if not (eqb (length reg.info.public_key) 32)
    then false
    else if not (node_id_of reg.info.public_key == reg.info.node_id)
    then false
    else verify reg.info.public_key nonce reg.signature

unfoldable pub new_client : Register → ℕ → Client
new_client reg conn = record { info = reg.info; send = []; conn = conn }

-- The server after the call, the connection that it closes, and the snapshot for the new client.
unfoldable pub add : Server → Client → Server × Option ℕ × List PeerInfo
add s c = (
  insert c.info.node_id c s,
  elim (lookup c.info.node_id s) [ none ↦ none | some prior ↦ some prior.conn ],
  map (λ e. e.1.info) (select (λ e. not (e.1.info.node_id == c.info.node_id)) s),
)

unfoldable pub remove : Server → Client → Server × Bool
remove s c = elim (lookup c.info.node_id s) [
  | none ↦ (s, false)
  | some d ↦ if eqb d.conn c.conn then (delete c.info.node_id s, true) else (s, false)
]

-- The non-blocking send: dropped if the buffer is full.
unfoldable pub offer : Message → Client → Client
offer m c = if ltb (length c.send) 32 then record c { send = c.send ++ m ∷ [] } else c

unfoldable pub broadcast_except : Server → GoString → Message → Server
broadcast_except s except m = map (λ e. (e.0, if e.0 == except then e.1 else offer m e.1)) s

unfoldable pub route_relay : Server → GoString → GoString → List ℕ → Server
route_relay s from to payload = elim (lookup to s) [
  | none ↦ s
  | some target ↦ insert to (offer (relay from to payload) target) s
]

-- The steps of `HandleWS` for one connection: registered, a relay read, and gone.
unfoldable pub connect : Server → Client → Server × Option ℕ × List PeerInfo
connect s c =
    let (s', closed, snapshot) = add s c in
    (broadcast_except s' c.info.node_id (presence_join c.info), closed, snapshot)

unfoldable pub disconnect : Server → Client → Server
disconnect s c =
    let (s', removed) = remove s c in
    if removed then broadcast_except s' c.info.node_id (presence_leave c.info.node_id) else s'

-- The sender that the relay itself names is overwritten.
unfoldable pub relay_from : Server → Client → GoString → GoString → List ℕ → Server
relay_from s c claimed to payload = route_relay s c.info.node_id to payload
