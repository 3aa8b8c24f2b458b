-- ===== src/Swarm/Select/Draws.antt =====
-- Random draws from a pool.
use p2p_hls.Prelude.{
  ℕ, zero, suc, ◌+◌, ◌≤◌, ◌<◌, ◌≡◌, refl, sym, ap, subst, ◌⊎◌, inl, inr, true, ◌&&◌, Bool-cases,
  ltb, List, [], ◌∷◌, ◌++◌, length, In, Distinct, length-append, some, string_eq, arith,
}
use p2p_hls.Party.Types.{NodeId}
use p2p_hls.Swarm.Select.{draw, add_random}

-- A draw is in the range that it was asked for, as `rand.Intn` promises.
abbrev pub InRange : (ℕ → ℕ → ℕ) → Type 0
InRange rng = (i n : ℕ) → 0 < n → rng i n < n

In-append_one : (a id : NodeId) (out : List NodeId) → In a (out ++ id ∷ []) → In a out ⊎ (id ≡ a)
In-append_one a id [] h = ground arith
In-append_one a id (x ∷ out) h = ground (arith, In-append_one a id out)

-- A draw takes one entry out of the pool.
record Draws (pool : List NodeId) (id : NodeId) (rest : List NodeId) : Type 0 where
  member : In id pool
  inside : (a : NodeId) → In a rest → In a pool
  fresh : ¬ In id rest
  distinct : Distinct rest
  size : length pool ≡ suc (length rest)

draw-Draws :
    (k : ℕ) (pool : List NodeId)
    → k < length pool
    → Distinct pool
    → (id : NodeId) × (rest : List NodeId) × (draw k pool ≡ some (id, rest)) × Draws pool id rest
unfolding draw
draw-Draws k [] h d = elim h [ ]
draw-Draws zero (x ∷ r) h d = (
  x,
  r,
  refl,
  record { member = inl refl; inside = λ a i. inr i; fresh = d.0; distinct = d.1; size = refl },
)
draw-Draws (suc k) (x ∷ r) h d =
    let (id, rest, e, w) = draw-Draws k r (omega arith) d.1 in
    (
      id,
      x ∷ rest,
      rw e,
      record {
        member = inr w.member;
        inside = λ a i. elim i [ inl q ↦ inl q | inr j ↦ inr (w.inside a j) ];
        fresh =
            λ i. elim i [ inl q ↦ d.0 (subst (λ t. In t r) (sym q) w.member) | inr j ↦ w.fresh j ];
        distinct = ((λ i. d.0 (w.inside x i)), w.distinct);
        size = ap suc w.size;
      },
    )

Distinct-append_one :
    (out : List NodeId) (id : NodeId) → ¬ In id out → Distinct out → Distinct (out ++ id ∷ [])
Distinct-append_one [] id h d = ((λ i. i), tt)
Distinct-append_one (x ∷ out) id h d = (
  (λ i. elim (In-append_one x id out i) [ inl j ↦ d.0 j | inr e ↦ h (inl (sym e)) ]),
  Distinct-append_one out id (λ i. h (inr i)) d.1,
)

-- What the random links add to the targets chosen so far, out of a pool apart from these.
pub record Added (fanout : ℕ) (out pool res : List NodeId) : Type 0 where
  pub distinct : Distinct res
  pub inside : (a : NodeId) → In a res → In a out ⊎ In a pool
  pub size : length res ≡ fanout

pub add_random-Added :
    (rng : ℕ → ℕ → ℕ) (fanout i n : ℕ) (out pool : List NodeId)
    → InRange rng
    → Distinct out
    → Distinct pool
    → ((a : NodeId) → In a out → ¬ In a pool)
    → length out ≤ fanout
    → fanout ≤ length out + n
    → fanout ≤ length out + length pool
    → Added fanout out pool (add_random rng fanout i n out pool)
unfolding add_random
add_random-Added rng fanout i zero out pool ran d e apart le enough room = record {
  distinct = d;
  inside = λ a h. inl h;
  size = omega arith;
}
add_random-Added rng fanout i (suc n) out pool ran d e apart le enough room =
    elim (Bool-cases (ltb (length out) fanout && ltb 0 (length pool))) [
      | inl q ↦
          let (id, rest, drawn, w) =
            draw-Draws (rng i (length pool)) pool (ran i (length pool) (ground arith)) e in
          rw (q, drawn)
            (after_draw id rest w (
              add_random-Added rng fanout (i + 1) n (out ++ id ∷ []) rest ran
                (Distinct-append_one out id (λ h. apart id h w.member) d) w.distinct
                (apart_rest id rest w) (room_left _ _ _ q (length-append out (id ∷ [])))
                (omega (arith, length-append out (id ∷ [])))
                (omega (arith, length-append out (id ∷ []), w.size))))
      | inr q ↦ rw q (record { distinct = d; inside = λ a h. inl h; size = ground arith })
    ]
  where
    room_left : (a b c : ℕ) → (ltb a fanout && ltb 0 b) ≡ true → c ≡ a + 1 → c ≤ fanout
    room_left a b c q e = ground arith

    apart_rest :
        (id : NodeId) (rest : List NodeId)
        → Draws pool id rest
        → (a : NodeId) → In a (out ++ id ∷ [])
        → ¬ In a rest
    apart_rest id rest w a h k = elim (In-append_one a id out h) [
      | inl j ↦ apart a j (w.inside a k)
      | inr p ↦ w.fresh (subst (λ t. In t rest) (sym p) k)
    ]

    after_draw :
        (id : NodeId) (rest : List NodeId) {res : List NodeId}
        → Draws pool id rest
        → Added fanout (out ++ id ∷ []) rest res
        → Added fanout out pool res
    after_draw id rest w r = record {
      distinct = r.distinct;
      inside = λ a h. elim (r.inside a h) [
        | inl k ↦ elim (In-append_one a id out k) [
          | inl j ↦ inl j
          | inr q ↦ inr (subst (λ t. In t pool) q w.member)
        ]
        | inr k ↦ inr (w.inside a k)
      ];
      size = r.size;
    }
