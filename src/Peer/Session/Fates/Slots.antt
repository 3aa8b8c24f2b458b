-- ===== src/Peer/Session/Fates/Slots.antt =====
-- What each operation does to one id's entries in the tables of a session.
use p2p_hls.Prelude.{
  ℕ, ◌≡◌, refl, sym, ap, ◌∙◌, Bool, true, false, not, ◌&&◌, ◌||◌, if◌then◌else◌, ◌==◌, ==_iff,
  nat_eq, Bool-cases, Option-cases, inl, inr, List, ◌∷◌, Option, none, some, has, has-select,
  lookup, insert, lookup-insert, lookup-delete,
}
use p2p_hls.Peer.Errors.{PeerError}
use p2p_hls.Peer.Envelope.{Envelope}
use p2p_hls.Peer.Bulk.Receive.{
  BulkSink, new_sink, signal_sink, deliver_frame, settle_sink, Accepted, kept, failed, accept,
}
use p2p_hls.Peer.Session.{Conn}
use p2p_hls.Peer.Session.Calls.{
  unregister, register_call, register_fetch, unregister_fetch, deliver, deliver_error, settle,
  end_fetch,
}

-- Whether the id is registered, its channel, its sink and its unregistered sink.
abbrev pub Slots : Type 0
Slots = Bool × Option (Option Envelope) × Option BulkSink × Option BulkSink

abbrev pub slots : Conn → ℕ → Slots
slots c n = (has n c.pending, lookup n c.mail, lookup n c.bulk_sinks, lookup n c.broken)

pub slots-unregister :
    (id n : ℕ) (c : Conn)
    → slots (unregister id c) n
      ≡ (if id == n then (false, none, lookup n c.bulk_sinks, lookup n c.broken) else slots c n)
unfolding unregister
slots-unregister id n c =
    rw (has-select n (λ k. not (id == k)) c.pending, lookup-delete id n c.mail) (cases (id == n))
  where
    cases :
        (b : Bool)
        → ◌≡◌ {A = Slots}
            (
              (not b && has n c.pending),
              (if b then none else lookup n c.mail),
              lookup n c.bulk_sinks,
              lookup n c.broken,
            )
            (if b then (false, none, lookup n c.bulk_sinks, lookup n c.broken) else slots c n)
    cases true = refl
    cases false = refl

pub slots-end_fetch :
    (id n : ℕ) (c : Conn)
    → slots (end_fetch id c) n
      ≡ (if id == n then (has n c.pending, lookup n c.mail, none, none) else slots c n)
unfolding end_fetch
slots-end_fetch id n c = elim (Bool-cases (id == n)) [
  | inl q ↦ rw (lookup-delete id n c.bulk_sinks, lookup-delete id n c.broken, q) refl
  | inr q ↦ rw (lookup-delete id n c.bulk_sinks, lookup-delete id n c.broken, q) refl
]

-- The entries of the id that a message names, after `deliver`.
abbrev pub delivered : Envelope → Slots → Slots
delivered env (true, m, s, b) = (false, some (some env), s, b)
delivered env (false, m, s, b) = (false, m, s, b)

pub slots-deliver :
    (env : Envelope) (n : ℕ) (c : Conn)
    → slots (deliver c env) n
      ≡ (if env.request_id == n then delivered env (slots c n) else slots c n)
unfolding deliver
slots-deliver env n c = elim (Bool-cases (has env.request_id c.pending)) [
  | inl p ↦ elim (Bool-cases (env.request_id == n)) [
    | inl q ↦
        let p' = same q ∙ p in
        rw
          (
            p,
            deliver,
            has-select n (λ k. not (env.request_id == k)) c.pending,
            lookup-insert env.request_id n (some env) c.mail,
            q,
            p',
          )
          refl
    | inr q ↦
        rw
          (
            p,
            deliver,
            has-select n (λ k. not (env.request_id == k)) c.pending,
            lookup-insert env.request_id n (some env) c.mail,
            q,
          )
          refl
  ]
  | inr p ↦ elim (Bool-cases (env.request_id == n)) [
    | inl q ↦ let p' = same q ∙ p in rw (p, deliver, q, p') refl
    | inr q ↦ rw (p, deliver, q) refl
  ]
]
  where
    same : (env.request_id == n) ≡ true → has n c.pending ≡ has env.request_id c.pending
    same q = ap (λ k. has k c.pending) (sym ((==_iff env.request_id n).0 q))

-- After an error, which goes to a sink first.
abbrev pub errored : Envelope → PeerError → Slots → Slots
errored env e (p, m, some s, b) = (p, m, some (signal_sink s (some e)), b)
errored env e (p, m, none, b) = delivered env (p, m, none, b)

pub slots-deliver_error :
    (env : Envelope) (e : PeerError) (n : ℕ) (c : Conn)
    → slots (deliver_error c env e) n
      ≡ (if env.request_id == n then errored env e (slots c n) else slots c n)
unfolding deliver_error
slots-deliver_error env e n c = elim (Option-cases (lookup env.request_id c.bulk_sinks)) [
  | inl p ↦ elim (Bool-cases (env.request_id == n)) [
    | inl q ↦ let p' = same q ∙ p in rw (p, deliver_error) (slots-deliver env n c ∙ rw (q, p') refl)
    | inr q ↦ rw (p, deliver_error) (slots-deliver env n c ∙ rw q refl)
  ]
  | inr (s, p) ↦ elim (Bool-cases (env.request_id == n)) [
    | inl q ↦
        let p' = same q ∙ p in
        rw
          (
            p,
            deliver_error,
            lookup-insert env.request_id n (signal_sink s (some e)) c.bulk_sinks,
            q,
            p',
          )
          refl
    | inr q ↦
        rw
          (
            p,
            deliver_error,
            lookup-insert env.request_id n (signal_sink s (some e)) c.bulk_sinks,
            q,
          )
          refl
  ]
]
  where
    same : (env.request_id == n) ≡ true → lookup n c.bulk_sinks ≡ lookup env.request_id c.bulk_sinks
    same q = ap (λ k. lookup k c.bulk_sinks) (sym ((==_iff env.request_id n).0 q))

-- After a frame.
abbrev pub settled : Accepted → Slots → Slots
settled (kept s) (p, m, old, b) = (p, m, some s, b)
settled (failed e) (p, m, old, b) = (p, m, none, some e)

abbrev pub framed : Bool → List ℕ → Slots → Slots
framed last payload (p, m, none, b) = (p, m, none, b)
framed last payload (p, m, some s, b) = settled (accept s last payload) (p, m, some s, b)

slots-settle_sink :
    (id n : ℕ) (a : Accepted) (c : Conn)
    → (let (sinks, broke) = settle_sink c.bulk_sinks id a in slots (settle c sinks broke) n)
      ≡ (if id == n then settled a (slots c n) else slots c n)
unfolding settle_sink settle
slots-settle_sink id n (kept s) c = elim (Bool-cases (id == n)) [
  | inl q ↦ rw (lookup-insert id n s c.bulk_sinks, q) refl
  | inr q ↦ rw (lookup-insert id n s c.bulk_sinks, q) refl
]
slots-settle_sink id n (failed e) c = elim (Bool-cases (id == n)) [
  | inl q ↦ rw (lookup-delete id n c.bulk_sinks, lookup-insert id n e c.broken, q) refl
  | inr q ↦ rw (lookup-delete id n c.bulk_sinks, lookup-insert id n e c.broken, q) refl
]

pub slots-deliver_frame :
    (id n : ℕ) (last : Bool) (payload : List ℕ) (c : Conn)
    → (let (sinks, broke) = deliver_frame c.bulk_sinks id last payload in
        slots (settle c sinks broke) n)
      ≡ (if id == n then framed last payload (slots c n) else slots c n)
unfolding deliver_frame settle
slots-deliver_frame id n last payload c = elim (Option-cases (lookup id c.bulk_sinks)) [
  | inl p ↦ elim (Bool-cases (id == n)) [
    | inl q ↦ let p' = same q ∙ p in rw (p, deliver_frame, q, p') refl
    | inr q ↦ rw (p, deliver_frame, q) refl
  ]
  | inr (s, p) ↦ elim (Bool-cases (id == n)) [
    | inl q ↦
        let p' = same q ∙ p in
        rw (p, deliver_frame) (slots-settle_sink id n (accept s last payload) c ∙ rw (q, p') refl)
    | inr q ↦ rw (p, deliver_frame) (slots-settle_sink id n (accept s last payload) c ∙ rw q refl)
  ]
]
  where
    same : (id == n) ≡ true → lookup n c.bulk_sinks ≡ lookup id c.bulk_sinks
    same q = ap (λ k. lookup k c.bulk_sinks) (sym ((==_iff id n).0 q))

has-cons : (n id : ℕ) (l : List ℕ) → has n (id ∷ l) ≡ (id == n || has n l)
unfolding has
has-cons n id l = refl

pub slots-register_call :
    (id n : ℕ) (c : Conn)
    → slots (register_call id c) n
      ≡ (if id == n then (true, some none, lookup n c.bulk_sinks, lookup n c.broken) else slots c n)
unfolding register_call
slots-register_call id n c = elim (Bool-cases (id == n)) [
  | inl q ↦ rw (has-cons n id c.pending, lookup-insert id n none c.mail, q) refl
  | inr q ↦ rw (has-cons n id c.pending, lookup-insert id n none c.mail, q) refl
]

-- A call that could not be sent leaves nothing.
pub slots-unsent_call :
    (id n : ℕ) (c : Conn)
    → ((id == n) ≡ true → slots c n ≡ (false, none, none, none))
    → slots (unregister id (register_call id c)) n ≡ slots c n
unfolding register_call
slots-unsent_call id n c new = elim (Bool-cases (id == n)) [
  | inl q ↦
      slots-unregister id n (register_call id c)
      ∙ rw q (ap (λ (s : Slots). (false, none, s.2, s.3)) (new q) ∙ sym (new q))
  | inr q ↦
      let r = slots-register_call id n c in
      slots-unregister id n (register_call id c) ∙ rw q (r ∙ rw q refl)
]

pub slots-register_fetch :
    (id n : ℕ) (w : Option PeerError) (c : Conn)
    → slots (register_fetch id w c) n ≡ (
        if id == n
        then (has n c.pending, lookup n c.mail, some (new_sink w), lookup n c.broken)
        else slots c n)
unfolding register_fetch
slots-register_fetch id n w c = elim (Bool-cases (id == n)) [
  | inl q ↦ rw (lookup-insert id n (new_sink w) c.bulk_sinks, q) refl
  | inr q ↦ rw (lookup-insert id n (new_sink w) c.bulk_sinks, q) refl
]

pub slots-unsent_fetch :
    (id n : ℕ) (w : Option PeerError) (c : Conn)
    → ((id == n) ≡ true → slots c n ≡ (false, none, none, none))
    → slots (unregister_fetch id (register_fetch id w c)) n ≡ slots c n
unfolding register_fetch unregister_fetch
slots-unsent_fetch id n w c new = elim (Bool-cases (id == n)) [
  | inl q ↦
      let s = ap (λ s. s.2) (new q) in
      rw (lookup-delete id n (insert id (new_sink w) c.bulk_sinks), q, s) refl
  | inr q ↦
      rw
        (
          lookup-delete id n (insert id (new_sink w) c.bulk_sinks),
          lookup-insert id n (new_sink w) c.bulk_sinks,
          q,
        )
        refl
]
