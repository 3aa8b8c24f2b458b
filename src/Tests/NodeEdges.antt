-- ===== src/Tests/NodeEdges.antt =====
-- The signals and the edges of internal/peer/binding.go and internal/app/node.go at inputs.
use p2p_hls.Prelude.{
  ℕ, zero, suc, ap, subst, has_prefix, to_lower, ◌≡◌, ◌≢◌, ◌⊎◌, refl, GoString, bytes, true, false,
  List, [], ◌∷◌, Option, none, some, lookup, string_eq, str_beq, arith,
}
use p2p_hls.Peer.Errors.{PeerError}
use p2p_hls.Peer.Session.{Result, ok, err}
use p2p_hls.Peer.Binding.{
  Crypto, Description, SdpType, offer, answer, other_type, identity_of, SignedSignal, signed,
  sign_signal, verify_signal, PeerConnection, handle_signal, node_id_from_public_key,
}
use p2p_hls.Peer.Binding.Accepted.{IsBound, handle_signal-IsBound, verify_signal-sign_signal}
use p2p_hls.Node.{Node, new_node, create, signal_relay}
use p2p_hls.Node.Glare.{Dials, ensure_peer-Dials}
use p2p_hls.Node.Moves.{
  NodeEvent, dials_to, relayed, readies, installs_catalog, node_run, AllServed, IsKeptAt,
}
use p2p_hls.Node.Histories.{node_run-AllServed, node_run-IsKeptAt}

-- A stand-in for the libraries: a signature is the key, and a description is written as its type and its text.
abbrev of_type : SdpType → ℕ
of_type offer = 0
of_type answer = 1
of_type other_type = 2

abbrev to_type : ℕ → SdpType
to_type zero = offer
to_type (suc zero) = answer
to_type (suc (suc n)) = other_type

to_type-of_type : (t : SdpType) → to_type (of_type t) ≡ t
to_type-of_type offer = refl
to_type-of_type answer = refl
to_type-of_type other_type = refl

abbrev parsed : List ℕ → Result Description
parsed [] = err record { is = none; text = [] }
parsed (t ∷ r) = ok record { sdp_type = to_type t; sdp = r }

abbrev toy : Crypto
toy = record {
  public_of = λ key. key;
  sign = λ key msg. key;
  verify = λ key msg sig. str_beq key sig;
  sha256 = λ key. key;
  base32 = λ sum. sum;
  marshal = λ desc. ok (of_type desc.sdp_type ∷ desc.sdp);
  unmarshal = parsed;
}

-- A key of 32 bytes, which is its own fingerprint.
abbrev key : List ℕ
key =
    1 ∷ 1 ∷ 1 ∷ 1 ∷ 1 ∷ 1 ∷ 1 ∷ 1 ∷ 1 ∷ 1 ∷ 1 ∷ 1 ∷ 1 ∷ 1 ∷ 1 ∷ 1 ∷ 1 ∷ 1 ∷ 1 ∷ 1 ∷ 1 ∷ 1 ∷ 1 ∷ 1
    ∷ 1 ∷ 1 ∷ 1 ∷ 1 ∷ 1 ∷ 1 ∷ 1 ∷ 1 ∷ []

abbrev described : Description
described = record { sdp_type = offer; sdp = 5 ∷ [] }

abbrev connection : PeerConnection
connection = record {
  set_remote_description = λ desc. none;
  create_answer = ok described;
  set_local_description = λ desc. none;
  gathered = ok described;
}

abbrev signal : SignedSignal
signal = record { from = key; public_key = key; sdp = 0 ∷ 5 ∷ []; signature = key }

relays : SignedSignal → Option PeerError
relays s = none

handle_signal-IsBound_example :
    ((desc : Description)
      → (handle_signal toy (identity_of toy key) key connection relays signal).remote_set
        ≡ some desc
      → IsBound toy key signal desc)
    × ((handle_signal toy (identity_of toy key) key connection relays signal).remote_set ≡ none
        → ((handle_signal toy (identity_of toy key) key connection relays signal).sent ≡ none)
          × ((handle_signal toy (identity_of toy key) key connection relays signal).failed ≢ none))
handle_signal-IsBound_example =
    handle_signal-IsBound toy (identity_of toy key) key connection relays signal

str_beq_refl : (s : GoString) → str_beq s s ≡ true
unfolding str_beq
str_beq_refl [] = refl
str_beq_refl (a ∷ s) = ground (arith, str_beq_refl s)

abbrev raw_or : List ℕ → Result (List ℕ) → List ℕ
raw_or s (ok raw) = raw
raw_or s (err e) = s

toy-reads : (d : Description) (raw : List ℕ) → toy.marshal d ≡ ok raw → toy.unmarshal raw ≡ ok d
toy-reads d raw h =
    subst (λ r. parsed r ≡ ok d) (ap (raw_or raw) h)
      (ap (λ t. ok record { sdp_type = t; sdp = d.sdp }) (to_type-of_type d.sdp_type))

verify_signal-sign_signal_example :
    (verify_signal toy signal ≡ ok described) × (signal.from ≡ (identity_of toy key).node_id)
unfolding identity_of node_id_from_public_key to_lower sign_signal signed
verify_signal-sign_signal_example =
    verify_signal-sign_signal toy key described signal (λ k msg. str_beq_refl k) toy-reads refl refl

-- Two nodes that have no session, and a history of one of them.
abbrev node_a : Node
node_a = new_node (bytes "a")

abbrev node_b : Node
node_b = new_node (bytes "b")

ensure_peer-Dials_example :
    (Dials node_a node_b × ¬ Dials node_b node_a) ⊎ (Dials node_b node_a × ¬ Dials node_a node_b)
unfolding new_node lookup has_prefix
ensure_peer-Dials_example =
    ensure_peer-Dials node_a node_b (λ e. ground (arith, ap (λ n. has_prefix n (bytes "a")) e)) refl
      refl

abbrev history : List NodeEvent
history =
    dials_to (bytes "b") false true
    ∷ installs_catalog
    ∷ dials_to (bytes "b") false false
    ∷ relayed (bytes "b") (signal_relay signal) false false
    ∷ readies (bytes "b")
    ∷ []

node_run-AllServed_example : AllServed (node_run node_a history)
unfolding new_node lookup
node_run-AllServed_example = node_run-AllServed node_a history (λ r. tt)

-- A session that is not ready and was never started, kept through a dial, a signal and a handshake.
node_run-IsKeptAt_example :
    IsKeptAt
      (lookup (bytes "b") (create node_a (bytes "b")).sessions)
      (lookup (bytes "b") (node_run (create node_a (bytes "b")) history).sessions)
node_run-IsKeptAt_example = node_run-IsKeptAt (create node_a (bytes "b")) history (bytes "b")
