-- ===== src/Peer/Session/Fates/Effects.antt =====
-- What an event does to the counter of request ids and to the control channel.
use p2p_hls.Prelude.{
  ℕ, ◌≡◌, refl, ap, ◌∙◌, nat_eq, Bool-cases, Option-cases, inl, inr, Option, none, some, has,
  lookup,
}
use p2p_hls.Peer.Errors.{PeerError}
use p2p_hls.Peer.Envelope.{Envelope, Body}
use p2p_hls.Peer.Bulk.Receive.{BulkSink, Sinks}
use p2p_hls.Peer.Session.{Conn, send}
use p2p_hls.Peer.Session.Calls.{
  next_id, unregister, register_call, register_fetch, unregister_fetch, begin_call, deliver,
  deliver_error, begin_fetch, settle, Outcome, reply, transferred, transfer_failed, end_fetch,
  return_with,
}

-- Neither the counter nor the channel is touched.
pub record Keeps (c c' : Conn) : Type 0 where
  pub count : c'.issued ≡ c.issued
  pub control : c'.control ≡ c.control

pub deliver-Keeps : (env : Envelope) (c : Conn) → Keeps c (deliver c env)
unfolding deliver
deliver-Keeps env c = elim (Bool-cases (has env.request_id c.pending)) [
  | inl p ↦ rw (p, deliver) record { count = refl; control = refl }
  | inr p ↦ rw (p, deliver) record { count = refl; control = refl }
]

pub deliver_error-Keeps :
    (env : Envelope) (e : PeerError) (c : Conn) → Keeps c (deliver_error c env e)
unfolding deliver_error
deliver_error-Keeps env e c = elim (Option-cases (lookup env.request_id c.bulk_sinks)) [
  | inl p ↦ rw (p, deliver_error) (deliver-Keeps env c)
  | inr (s, p) ↦ rw (p, deliver_error) record { count = refl; control = refl }
]

pub settle-Keeps :
    (c : Conn) (sinks : Sinks) (o : Option (ℕ × BulkSink)) → Keeps c (settle c sinks o)
unfolding settle
settle-Keeps c sinks none = record { count = refl; control = refl }
settle-Keeps c sinks (some (id, e)) = record { count = refl; control = refl }

pub return_with-Keeps : (c : Conn) (id : ℕ) (o : Outcome) → Keeps c (return_with c id o)
unfolding return_with end_fetch
return_with-Keeps c id (reply env) = record { count = refl; control = refl }
return_with-Keeps c id (transferred bs) = record { count = refl; control = refl }
return_with-Keeps c id (transfer_failed e) = record { count = refl; control = refl }

-- The beginnings, by what the channel says.
pub begin_call-sent :
    (c : Conn) (body : Body) (id : ℕ)
    → next_id c ≡ id
    → send c record { request_id = id; body = body } ≡ none
    → (begin_call c body).0 ≡ register_call id c
unfolding begin_call
begin_call-sent c body id e s =
    let s' = ap (λ k. send c record { request_id = k; body = body }) e ∙ s in
    rw (s', begin_call) (ap (λ k. register_call k c) e)

pub begin_call-unsent :
    (c : Conn) (body : Body) (id : ℕ) (x : PeerError)
    → next_id c ≡ id
    → send c record { request_id = id; body = body } ≡ some x
    → (begin_call c body).0 ≡ unregister id (register_call id c)
unfolding begin_call
begin_call-unsent c body id x e s =
    let s' = ap (λ k. send c record { request_id = k; body = body }) e ∙ s in
    rw (s', begin_call) (ap (λ k. unregister k (register_call k c)) e)

pub begin_fetch-sent :
    (c : Conn) (body : Body) (w : Option PeerError) (id : ℕ)
    → next_id c ≡ id
    → send c record { request_id = id; body = body } ≡ none
    → (begin_fetch c body w).0 ≡ register_fetch id w c
unfolding begin_fetch
begin_fetch-sent c body w id e s =
    let s' = ap (λ k. send c record { request_id = k; body = body }) e ∙ s in
    rw (s', begin_fetch) (ap (λ k. register_fetch k w c) e)

pub begin_fetch-unsent :
    (c : Conn) (body : Body) (w : Option PeerError) (id : ℕ) (x : PeerError)
    → next_id c ≡ id
    → send c record { request_id = id; body = body } ≡ some x
    → (begin_fetch c body w).0 ≡ unregister_fetch id (register_fetch id w c)
unfolding begin_fetch
begin_fetch-unsent c body w id x e s =
    let s' = ap (λ k. send c record { request_id = k; body = body }) e ∙ s in
    rw (s', begin_fetch) (ap (λ k. unregister_fetch k (register_fetch k w c)) e)
