-- ===== src/Peer/Binding.antt =====
-- internal/peer/binding.go, internal/identity/identity.go and the signals of internal/peer/session.go:
-- session descriptions that are signed with the key of the node they come from.
-- ed25519, SHA-256, base32 and JSON are parameters, and so is the WebRTC connection.
pub mod Accepted
use p2p_hls.Prelude.{
  ℕ, ◌+◌, Bool, true, false, not, ◌&&◌, if◌then◌else◌, ◌==◌, string_eq, to_lower, nat_eq, leb,
  GoString, bytes, ◌++◌, List, [], ◌∷◌, length, map, Option, none, some,
}
use p2p_hls.Peer.Errors.{PeerError}
use p2p_hls.Peer.Session.{Result, ok, err}

pub data SdpType : Type 0 where
  offer answer other_type : SdpType

pub record Description : Type 0 where
  pub sdp_type : SdpType
  pub sdp : GoString

-- What the standard library does: keys and signatures are bytes.
pub record Crypto : Type 0 where
  pub public_of : List ℕ → List ℕ
  pub sign : List ℕ → List ℕ → List ℕ
  pub verify : List ℕ → List ℕ → List ℕ → Bool
  pub sha256 : List ℕ → List ℕ
  pub base32 : List ℕ → GoString
  pub marshal : Description → Result (List ℕ)
  pub unmarshal : List ℕ → Result Description

-- `Identity`: the private key and what is derived from it.
pub record Identity : Type 0 where
  pub private_key : List ℕ
  pub public_key : List ℕ
  pub node_id : GoString

unfoldable pub node_id_from_public_key : Crypto → List ℕ → GoString
node_id_from_public_key k key = to_lower (k.base32 (k.sha256 key))

-- The identity of a private key.
unfoldable pub identity_of : Crypto → List ℕ → Identity
identity_of k private = record {
  private_key = private;
  public_key = k.public_of private;
  node_id = node_id_from_public_key k (k.public_of private);
}

pub record SignedSignal : Type 0 where
  pub from : GoString
  pub public_key : List ℕ
  pub sdp : List ℕ
  pub signature : List ℕ

unfoldable pub signed : Crypto → Identity → List ℕ → SignedSignal
signed k self sdp = record {
  from = self.node_id;
  public_key = self.public_key;
  sdp = sdp;
  signature = k.sign self.private_key sdp;
}

unfoldable pub sign_signal : Crypto → Identity → Description → Result SignedSignal
sign_signal k self desc = elim (k.marshal desc) [ err e ↦ err e | ok sdp ↦ ok (signed k self sdp) ]

abbrev pub other_error : GoString → PeerError
other_error text = record { is = none; text = text }

abbrev pub public_key_size : ℕ
public_key_size = 32

unfoldable pub verify_signal : Crypto → SignedSignal → Result Description
verify_signal k s =
    if not (length s.public_key == public_key_size)
    then err (other_error (bytes "peer: bad public key length"))
    else (if not (node_id_from_public_key k s.public_key == s.from)
        then err (other_error (bytes "peer: From does not match public key fingerprint"))
        else (if not (k.verify s.public_key s.sdp s.signature)
            then err (other_error (bytes "peer: signature verification failed"))
            else k.unmarshal s.sdp))

-- What the connection answers to each call; `gathered` is the local description once the candidates
-- are gathered, or the error of the context.
pub record PeerConnection : Type 0 where
  pub set_remote_description : Description → Option PeerError
  pub create_answer : Result Description
  pub set_local_description : Description → Option PeerError
  pub gathered : Result Description

-- What a signal does: the description that the connection is given, and the signal that goes out.
pub record Signaled : Type 0 where
  pub remote_set : Option Description
  pub sent : Option SignedSignal
  pub failed : Option PeerError

-- `setLocalAndSend`, at the description that was made; `relay` is the signaler.
unfoldable pub send_signed :
    (SignedSignal → Option PeerError) → Result SignedSignal → Option SignedSignal × Option PeerError
send_signed relay (err e) = (none, some e)
send_signed relay (ok s) = elim (relay s) [ some e ↦ (none, some e) | none ↦ (some s, none) ]

unfoldable pub sign_gathered : Crypto → Identity → Result Description → Result SignedSignal
sign_gathered k self (err e) = err e
sign_gathered k self (ok desc) = sign_signal k self desc

unfoldable pub set_local_and_send :
    Crypto
    → Identity
    → PeerConnection
    → (SignedSignal → Option PeerError)
    → Description
    → Option SignedSignal × Option PeerError
set_local_and_send k self pc relay desc = elim (pc.set_local_description desc) [
  | some e ↦ (none, some e)
  | none ↦ send_signed relay (sign_gathered k self pc.gathered)
]

unfoldable pub answer_offer :
    Crypto
    → Identity
    → PeerConnection
    → (SignedSignal → Option PeerError)
    → Result Description
    → Option SignedSignal × Option PeerError
answer_offer k self pc relay (err e) = (none, some e)
answer_offer k self pc relay (ok desc) = set_local_and_send k self pc relay desc

-- An offer is answered, another description is not.
unfoldable pub after_remote :
    Crypto
    → Identity
    → PeerConnection
    → (SignedSignal → Option PeerError)
    → SdpType
    → Option SignedSignal × Option PeerError
after_remote k self pc relay offer = answer_offer k self pc relay pc.create_answer
after_remote k self pc relay answer = (none, none)
after_remote k self pc relay other_type = (none, none)

unfoldable pub signal_failed : PeerError → Signaled
signal_failed e = record { remote_set = none; sent = none; failed = some e }

unfoldable pub on_description :
    Crypto
    → Identity
    → PeerConnection
    → (SignedSignal → Option PeerError)
    → Result Description
    → Signaled
on_description k self pc relay (err e) = signal_failed e
on_description k self pc relay (ok desc) = elim (pc.set_remote_description desc) [
  | some e ↦ signal_failed e
  | none ↦
      let (sent, failed) = after_remote k self pc relay desc.sdp_type in
      record { remote_set = some desc; sent = sent; failed = failed }
]

unfoldable pub handle_signal :
    Crypto
    → Identity
    → GoString
    → PeerConnection
    → (SignedSignal → Option PeerError)
    → SignedSignal
    → Signaled
handle_signal k self remote pc relay sig =
    if not (sig.from == remote)
    then signal_failed (other_error (bytes "peer: signal from unexpected node " ++ sig.from))
    else on_description k self pc relay (verify_signal k sig)
