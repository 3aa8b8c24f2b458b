-- ===== src/Party/Danmaku/Gate.antt =====
-- The token bucket bounds each sender's rate, and senders do not disturb one another.
use p2p_hls.Prelude.{
  ℕ, ◌+◌, ◌-◌, ◌*◌, ◌<◌, ◌≤◌, ◌≡◌, ◌≢◌, refl, ap, ap₂, ◌∙◌, Option-cases, Bool, true, ◌&&◌,
  if◌then◌else◌, Bool-cases, inl, inr, List, [], ◌∷◌, Option, none, some, lookup, lookup-insert,
  ◌==◌, ==_iff, ==_refl, string_eq, All, select, arith,
}
use p2p_hls.Party.Types.{NodeId, Time, Config}
use p2p_hls.Party.Danmaku.{
  DanmakuGate, TokenBucket, token, allow, bucket_of, refilled, new_danmaku_gate,
}

-- How many of a sender's attempts the gate let through.
unfoldable pub granted : NodeId → DanmakuGate → List (NodeId × Time) → ℕ
granted n g [] = 0
granted n g ((sender, now) ∷ r) =
    (if sender == n && (allow g sender now).1 then 1 else 0) + granted n (allow g sender now).0 r

-- The tokens that a sender can spend by the time `t`: the bucket's and the refill until then, or
-- for a new sender a full bucket and the refill since `from`, before which it does not come.
budget : DanmakuGate → Option TokenBucket → Time → Time → ℕ
budget g none from t = g.burst + (t - from) * g.refill
budget g (some b) from t = b.tokens + (t - b.last) * g.refill

abbrev Between : Time → Time → List (NodeId × Time) → Type 0
Between from t = All (λ e. (from ≤ e.1) × (e.1 ≤ t))

-- A refill only turns time into tokens.
-- Waiting in two parts.
wait_split : (s now t r : ℕ) → s ≤ now → now ≤ t → (t - s) * r ≡ (t - now) * r + (now - s) * r
wait_split s now t r h k = omega (arith, ap (λ (x : ℕ). x * r) (split s now t h k))
  where
    split : (s now t : ℕ) → s ≤ now → now ≤ t → t - s ≡ (t - now) + (now - s)
    split s now t h k = omega arith

refilled-budget :
    (g : DanmakuGate) (b : TokenBucket) (now from t : Time)
    → now ≤ t
    → budget g (some (refilled g b now)) from t ≤ budget g (some b) from t
unfolding refilled budget
refilled-budget g b now from t le = ground (arith, wait_split b.last now t g.refill)

bucket_of-budget :
    (g : DanmakuGate) (n : NodeId) (now from t : Time)
    → from ≤ now
    → now ≤ t
    → budget g (some (bucket_of g n now)) from t ≤ budget g (lookup n g.state) from t
unfolding bucket_of budget
bucket_of-budget g n now from t lo hi = elim (Option-cases (lookup n g.state)) [
  | inl e ↦ rw (e, bucket_of) (ground (arith, wait_split from now t g.refill))
  | inr (b, e) ↦ rw (e, bucket_of) (omega arith)
]

-- What an attempt costs comes out of the sender's own budget.
allow-budget :
    (g : DanmakuGate) (n : NodeId) (now from t : Time)
    → from ≤ now
    → now ≤ t
    → (if (allow g n now).1 then token else 0)
        + budget (allow g n now).0 (lookup n (allow g n now).0.state) from t
      ≤ budget g (lookup n g.state) from t
unfolding allow budget
allow-budget g n now from t lo hi =
    let b = refilled g (bucket_of g n now) now in
    ground (
      arith,
      lookup-insert n n (record b { tokens = b.tokens - token }) g.state,
      lookup-insert n n b g.state,
      ==_refl n,
      refilled-budget g (bucket_of g n now) now from t hi,
      bucket_of-budget g n now from t lo hi,
    )

-- An attempt of another sender leaves a sender's bucket alone.
pub lookup-allow :
    (g : DanmakuGate) (m n : NodeId) (now : Time)
    → m ≢ n
    → lookup n (allow g m now).0.state ≡ lookup n g.state
unfolding allow
lookup-allow g m n now h =
    let b = refilled g (bucket_of g m now) now in
    ground (
      arith,
      lookup-insert m n (record b { tokens = b.tokens - token }) g.state,
      lookup-insert m n b g.state,
      ==_iff m n,
    )

allow-budget_other :
    (g : DanmakuGate) (m n : NodeId) (now from t : Time)
    → m ≢ n
    → budget (allow g m now).0 (lookup n (allow g m now).0.state) from t
      ≡ budget g (lookup n g.state) from t
unfolding budget allow
allow-budget_other g m n now from t h = rw (lookup-allow g m n now h) (same (lookup n g.state))
  where
    same : (o : Option TokenBucket) → budget (allow g m now).0 o from t ≡ budget g o from t
    same none = ground arith
    same (some b) = ground arith

granted-budget :
    (n : NodeId) (from t : Time) (g : DanmakuGate) (es : List (NodeId × Time))
    → Between from t es
    → granted n g es * token ≤ budget g (lookup n g.state) from t
unfolding granted
granted-budget n from t g [] h = omega arith
granted-budget n from t g ((m, now) ∷ es) ((lo, hi), h) = elim (Bool-cases (m == n)) [
  | inl e ↦ rw ((==_iff m n).0 e) (
      ground (
        arith,
        ==_refl n,
        allow-budget g n now from t lo hi,
        granted-budget n from t (allow g n now).0 es h,
      ))
  | inr e ↦ ground (
    arith,
    allow-budget_other g m n now from t (λ q. ground (arith, ==_iff m n)),
    granted-budget n from t (allow g m now).0 es h,
  )
]

-- The rate limit. However a sender times its attempts between two instants, in whatever order they
-- reach a new gate and whatever other senders do, what the gate lets through is at most the burst
-- and the refill between the instants.
pub granted_bound :
    (cfg : Config) (n : NodeId) (from t : Time) (es : List (NodeId × Time))
    → All (λ e. (from ≤ e.1) × (e.1 ≤ t)) es
    → granted n (new_danmaku_gate cfg) es * token
      ≤ cfg.danmaku_burst * token + (t - from) * cfg.danmaku_refill_per_sec
unfolding new_danmaku_gate budget lookup
granted_bound cfg n from t es h = granted-budget n from t (new_danmaku_gate cfg) es h

-- A sender that has waited long enough for one token since its last refill is let through, if the
-- bucket can hold a token at all.
pub allow_after_wait :
    (g : DanmakuGate) (n : NodeId) (b : TokenBucket) (now : Time)
    → lookup n g.state ≡ some b
    → token ≤ g.burst
    → b.last < now
    → token ≤ (now - b.last) * g.refill
    → (allow g n now).1 ≡ true
unfolding allow bucket_of refilled
allow_after_wait g n b now e cap later waited = ground arith

-- The gate's answers to one sender's attempts.
unfoldable pub answers : NodeId → DanmakuGate → List (NodeId × Time) → List Bool
answers n g [] = []
answers n g ((m, now) ∷ es) =
    let (g', ok) = allow g m now in if m == n then ok ∷ answers n g' es else answers n g' es

-- Two gates that agree on a sender.
record Agree (n : NodeId) (g h : DanmakuGate) : Type 0 where
  burst : g.burst ≡ h.burst
  refill : g.refill ≡ h.refill
  bucket : lookup n g.state ≡ lookup n h.state

bucket-Agree :
    (n : NodeId) (g h : DanmakuGate) (now : Time)
    → Agree n g h
    → refilled g (bucket_of g n now) now ≡ refilled h (bucket_of h n now) now
unfolding bucket_of refilled
bucket-Agree n g h now a = at_bucket (bucket_of g n now) (bucket_of h n now) same
  where
    same : bucket_of g n now ≡ bucket_of h n now
    same = ground (arith, a.bucket, a.burst)

    at_bucket : (b c : TokenBucket) → b ≡ c → refilled g b now ≡ refilled h c now
    at_bucket b c e = ground (arith, a.burst, a.refill)

allow-Agree :
    (n : NodeId) (g h : DanmakuGate) (now : Time)
    → Agree n g h
    → ((allow g n now).1 ≡ (allow h n now).1) × Agree n (allow g n now).0 (allow h n now).0
unfolding allow
allow-Agree n g h now a =
    let b = refilled g (bucket_of g n now) now in
    let c = refilled h (bucket_of h n now) now in
    ground (
      arith,
      bucket-Agree n g h now a,
      a.burst,
      a.refill,
      lookup-insert n n (record b { tokens = b.tokens - token }) g.state,
      lookup-insert n n b g.state,
      lookup-insert n n (record c { tokens = c.tokens - token }) h.state,
      lookup-insert n n c h.state,
      ==_refl n,
    )

allow-Agree_other :
    (n m : NodeId) (g h : DanmakuGate) (now : Time)
    → m ≢ n
    → Agree n g h
    → Agree n (allow g m now).0 h
unfolding allow
allow-Agree_other n m g h now ne a = record {
  burst = ground (arith, a.burst);
  refill = ground (arith, a.refill);
  bucket = lookup-allow g m n now ne ∙ a.bucket;
}

answers-Agree :
    (n : NodeId) (g h : DanmakuGate) (es : List (NodeId × Time))
    → Agree n g h
    → answers n g es ≡ answers n h (select (λ e. e.0 == n) es)
unfolding answers
answers-Agree n g h [] a = refl
answers-Agree n g h ((m, now) ∷ es) a = elim (Bool-cases (m == n)) [
  | inl e ↦
      let s = allow-Agree n g h now a in
      rw (e, (==_iff m n).0 e, ==_refl n)
        (ap₂ ◌∷◌ s.0 (answers-Agree n (allow g n now).0 (allow h n now).0 es s.1))
  | inr e ↦ rw e (
      answers-Agree n (allow g m now).0 h es
        (allow-Agree_other n m g h now (λ q. ground (arith, ==_iff m n)) a))
]

-- Senders do not disturb one another: the gate answers a sender's attempts as if nobody else had
-- sent anything.
pub answers-select :
    (n : NodeId) (g : DanmakuGate) (es : List (NodeId × Time))
    → answers n g es ≡ answers n g (select (λ e. e.0 == n) es)
answers-select n g es =
    answers-Agree n g g es (record { burst = refl; refill = refl; bucket = refl })
