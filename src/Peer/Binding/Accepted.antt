-- ===== src/Peer/Binding/Accepted.antt =====
-- Which session descriptions are accepted.
use p2p_hls.Prelude.{
  ℕ, ◌≡◌, refl, ap, subst, ◌∙◌, true, ◌==◌, ==_iff, string_eq, nat_eq, GoString, List, length,
  Option, none, some, Bool-cases, Option-cases, ◌≢◌, inl, inr, arith,
}
use p2p_hls.Peer.Errors.{PeerError}
use p2p_hls.Peer.Session.{Result, ok, err}
use p2p_hls.Peer.Binding.{
  Crypto, Description, Identity, identity_of, node_id_from_public_key, SignedSignal, signed,
  sign_signal, verify_signal, PeerConnection, signal_failed, on_description, handle_signal,
  public_key_size,
}

-- What `verify_signal` has checked.
pub record IsBound (k : Crypto) (remote : GoString) (sig : SignedSignal) (desc : Description)
    : Type 0 where
  pub from_remote : sig.from ≡ remote
  full_key : length sig.public_key ≡ public_key_size
  fingerprint : node_id_from_public_key k sig.public_key ≡ remote
  is_signed : k.verify sig.public_key sig.sdp sig.signature ≡ true
  content : k.unmarshal sig.sdp ≡ ok desc

on_description-ok :
    (k : Crypto) (self : Identity) (pc : PeerConnection) (relay : SignedSignal → Option PeerError)
    (r : Result Description) (desc : Description)
    → (on_description k self pc relay r).remote_set ≡ some desc
    → r ≡ ok desc
unfolding on_description signal_failed
on_description-ok k self pc relay (err e) desc h = ground arith
on_description-ok k self pc relay (ok d) desc h = ground arith

on_description-none :
    (k : Crypto) (self : Identity) (pc : PeerConnection) (relay : SignedSignal → Option PeerError)
    (r : Result Description)
    → (on_description k self pc relay r).remote_set ≡ none
    → ((on_description k self pc relay r).sent ≡ none)
      × ((on_description k self pc relay r).failed ≢ none)
unfolding on_description signal_failed
on_description-none k self pc relay (err e) h = (refl, (λ e. ground arith))
on_description-none k self pc relay (ok d) h = elim (Option-cases (pc.set_remote_description d)) [
  | inl q ↦ absurd (ground arith)
  | inr (e, q) ↦ rw (q, on_description) (refl, (λ f. ground arith))
]

-- What makes `verify_signal` accept, for any sender.
record IsSigned (k : Crypto) (sig : SignedSignal) (desc : Description) : Type 0 where
  full_key : length sig.public_key ≡ public_key_size
  fingerprint : node_id_from_public_key k sig.public_key ≡ sig.from
  is_signed : k.verify sig.public_key sig.sdp sig.signature ≡ true
  content : k.unmarshal sig.sdp ≡ ok desc

verify_signal-IsSigned :
    (k : Crypto) (sig : SignedSignal) (desc : Description)
    → verify_signal k sig ≡ ok desc
    → IsSigned k sig desc
unfolding verify_signal
verify_signal-IsSigned k sig desc h = record {
  full_key = ground (arith, ==_iff (length sig.public_key) public_key_size);
  fingerprint = ground (arith, ==_iff (node_id_from_public_key k sig.public_key) sig.from);
  is_signed = ground arith;
  content = ground arith;
}

IsSigned-verify_signal :
    (k : Crypto) (sig : SignedSignal) (desc : Description)
    → IsSigned k sig desc
    → verify_signal k sig ≡ ok desc
unfolding verify_signal
IsSigned-verify_signal k sig desc s = ground (
  arith,
  ==_iff (length sig.public_key) public_key_size,
  ==_iff (node_id_from_public_key k sig.public_key) sig.from,
  s.full_key,
  s.fingerprint,
  s.is_signed,
  s.content,
)

-- A session's connection is given a remote description by a signal only if the signal names the
-- session's own remote node as its sender, carries a public key of 32 bytes whose fingerprint is that
-- node's id, and a signature of the description's bytes that this key verifies: nothing that the
-- signaling server puts together without the node's key, or moves from another node's signals, gets
-- that far. Where any of it is missing nothing is sent back either and the result is an error.
pub handle_signal-IsBound :
    (k : Crypto) (self : Identity) (remote : GoString) (pc : PeerConnection)
    (relay : SignedSignal → Option PeerError) (sig : SignedSignal)
    → ((desc : Description)
        → (handle_signal k self remote pc relay sig).remote_set ≡ some desc
        → IsBound k remote sig desc)
      × ((handle_signal k self remote pc relay sig).remote_set ≡ none
          → ((handle_signal k self remote pc relay sig).sent ≡ none)
            × ((handle_signal k self remote pc relay sig).failed ≢ none))
unfolding handle_signal on_description signal_failed
handle_signal-IsBound k self remote pc relay sig = elim (Bool-cases (sig.from == remote)) [
  | inr q ↦ rw (q, handle_signal) ((λ desc h. ground arith), (λ h. (refl, (λ e. ground arith))))
  | inl q ↦
      rw (q, handle_signal)
        (
          (λ desc h.
              let from = (==_iff sig.from remote).0 q in
              let s =
                verify_signal-IsSigned k sig desc
                  (on_description-ok k self pc relay (verify_signal k sig) desc h) in
              record {
                from_remote = from;
                full_key = s.full_key;
                fingerprint = s.fingerprint ∙ from;
                is_signed = s.is_signed;
                content = s.content;
              }),
          on_description-none k self pc relay (verify_signal k sig),
        )
]

signed-IsSigned :
    (k : Crypto) (private : List ℕ) (desc : Description) (raw : List ℕ)
    → k.verify (k.public_of private) raw (k.sign private raw) ≡ true
    → k.unmarshal raw ≡ ok desc
    → length (k.public_of private) ≡ public_key_size
    → IsSigned k (signed k (identity_of k private) raw) desc
unfolding signed identity_of
signed-IsSigned k private desc raw verified read full = record {
  full_key = full;
  fingerprint = refl;
  is_signed = verified;
  content = read;
}

sent_or : SignedSignal → Result SignedSignal → SignedSignal
sent_or s (ok sig) = sig
sent_or s (err e) = s

-- Round trip: what a node signs, the node that holds a session to it verifies: the description comes
-- back from the signed signal, for a private key whose public key has 32 bytes. It takes of the
-- libraries that a signature verifies with the key it was made by, and that the description's JSON
-- is read back.
pub verify_signal-sign_signal :
    (k : Crypto) (private : List ℕ) (desc : Description) (sig : SignedSignal)
    → ((key msg : List ℕ) → k.verify (k.public_of key) msg (k.sign key msg) ≡ true)
    → ((d : Description) (raw : List ℕ) → k.marshal d ≡ ok raw → k.unmarshal raw ≡ ok d)
    → length (k.public_of private) ≡ public_key_size
    → sign_signal k (identity_of k private) desc ≡ ok sig
    → (verify_signal k sig ≡ ok desc) × (sig.from ≡ (identity_of k private).node_id)
unfolding sign_signal signed sent_or
verify_signal-sign_signal k private desc sig verifies reads full h = from (k.marshal desc) refl h
  where
    from :
        (r : Result (List ℕ))
        → k.marshal desc ≡ r
        → (elim r as (λ x. Result SignedSignal) [
          | err e ↦ err e
          | ok raw ↦ ok (signed k (identity_of k private) raw)
        ])
          ≡ ok sig
        → (verify_signal k sig ≡ ok desc) × (sig.from ≡ (identity_of k private).node_id)
    from (err e) m h = ground arith
    from (ok raw) m h =
        let s = signed k (identity_of k private) raw in
        let e : s ≡ sig = ap (sent_or s) h in
        subst (λ t. (verify_signal k t ≡ ok desc) × (t.from ≡ (identity_of k private).node_id)) e
          (
            IsSigned-verify_signal k s desc
                (signed-IsSigned k private desc raw (verifies private raw) (reads desc raw m) full),
            refl,
          )
