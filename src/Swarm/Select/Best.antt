-- ===== src/Swarm/Select/Best.antt =====
-- Which peer is selected.
use p2p_hls.Prelude.{
  ◌≡◌, refl, ◌⊎◌, ◌↔◌, inl, inr, Bool, true, false, if◌then◌else◌, Bool-cases, str_ltb,
  str_ltb_irrefl, str_ltb_trans, str_ltb-total, ℤ, ◌≤◌, has, [], ◌∷◌, In, Map, Option, none, some,
  int_eq, arith, ap, sym, subst,
}
use p2p_hls.Party.Types.{NodeId, Time}
use p2p_hls.Swarm.Engine.{Swarm, PeerInfo}
use p2p_hls.Swarm.Select.{eligible, rank, Candidate, beats, next_best, select_from, select_source}

beats_trans : (a b c : Candidate) → beats a b ≡ true → beats b c ≡ true → beats a c ≡ true
unfolding beats
beats_trans a b c h k = ground (arith, str_ltb_trans a.0 b.0 c.0)

beats_irrefl : (a : Candidate) → beats a a ≡ false
unfolding beats
beats_irrefl a = ground (arith, str_ltb_irrefl a.0)

str_lt_le : (x r b : NodeId) → str_ltb x r ≡ true → str_ltb b r ≡ false → str_ltb x b ≡ true
str_lt_le x r b h k = elim (Bool-cases (str_ltb r b)) [
  | inl q ↦ str_ltb_trans x r b h q
  | inr q ↦ subst (λ t. str_ltb x t ≡ true) (str_ltb-total r b q k) h
]

-- What beats one beats all that do not beat that one.
beats_le : (x r b : Candidate) → beats x r ≡ true → beats b r ≡ false → beats x b ≡ true
unfolding beats
beats_le x r b h k = ground (arith, str_lt_le x.0 r.0 b.0)

-- Two candidates of which neither beats the other are one node with one rank.
beats-total : (a b : Candidate) → beats a b ≡ false → beats b a ≡ false → a ≡ b
unfolding beats
beats-total (i, r) (j, q) h k =
    let e : r ≡ q = ground arith in
    let d : i ≡ j = ground (arith, str_ltb-total i j) in λ t. (d t, e t)

some_inj : (a b : Candidate) → some a ≡ some b → a ≡ b
some_inj a b e = cc

module _ (idx : ℤ) (now : Time) where
  -- The candidate is an eligible record's.
  abbrev pub Offers : Map NodeId PeerInfo → Candidate → Type 0
  Offers m b = (p : PeerInfo) × In (b.0, p) m × (eligible idx now p ≡ true) × (b.1 ≡ rank p)

  -- No eligible record beats the candidate.
  abbrev pub Unbeaten : Map NodeId PeerInfo → Candidate → Type 0
  Unbeaten m b =
      (id : NodeId) (p : PeerInfo)
      → In (id, p) m
      → eligible idx now p ≡ true
      → beats (id, rank p) b ≡ false

  -- What the loop makes of a best-so-far and the records that are left.
  abbrev Chosen : Option Candidate → Map NodeId PeerInfo → Option Candidate → Type 0
  Chosen best m none =
      (best ≡ none) × ((id : NodeId) (p : PeerInfo) → In (id, p) m → eligible idx now p ≡ false)
  Chosen best m (some b) =
      ((best ≡ some b) ⊎ Offers m b)
      × ((c : Candidate) → best ≡ some c → beats c b ≡ false)
      × Unbeaten m b

  skip-Chosen :
      (best : Option Candidate) (id : NodeId) (p : PeerInfo) (r : Map NodeId PeerInfo)
      (res : Option Candidate)
      → eligible idx now p ≡ false
      → Chosen best r res
      → Chosen best ((id, p) ∷ r) res
  skip-Chosen best id p r none out c = (
    c.0,
    λ j q h. elim h [ inl e ↦ subst (λ t. eligible idx now t.1 ≡ false) e out | inr i ↦ c.1 j q i ],
  )
  skip-Chosen best id p r (some b) out c = (
    elim (c.0) [ inl e ↦ inl e | inr (q, i, ok, v) ↦ inr (q, inr i, ok, v) ],
    c.1,
    λ j q h ok. elim h [
      | inl e ↦ absurd (conflict (subst (λ t. eligible idx now t.1 ≡ false) e out) ok)
      | inr i ↦ c.2 j q i ok
    ],
  )
    where
      conflict : {x : Bool} → x ≡ false → x ≡ true → ⊥
      conflict a b = cc

  -- The record's own candidate takes over.
  take-Chosen :
      (best : Option Candidate) (id : NodeId) (p : PeerInfo) (r : Map NodeId PeerInfo)
      (res : Option Candidate)
      → eligible idx now p ≡ true
      → ((c : Candidate) → best ≡ some c → beats (id, rank p) c ≡ true)
      → Chosen (some (id, rank p)) r res
      → Chosen best ((id, p) ∷ r) res
  take-Chosen best id p r none ok wins c = absurd (cc (c.0))
  take-Chosen best id p r (some b) ok wins c = (
    inr (elim (c.0) [
      | inl e ↦ (
        p,
        inl (ap (λ (t : Candidate). (t.0, p)) (some_inj _ _ e)),
        ok,
        sym (ap (λ (t : Candidate). t.1) (some_inj _ _ e)),
      )
      | inr (q, i, fit, v) ↦ (q, inr i, fit, v)
    ]),
    (λ a e. ground (arith, wins a e, c.1 (id, rank p) refl, beats_trans (id, rank p) a b)),
    (λ j q h fit. elim h [
      | inl e ↦
          subst (λ (t : NodeId × PeerInfo). beats (t.0, rank (t.1)) b ≡ false) e
            (c.1 (id, rank p) refl)
      | inr i ↦ c.2 j q i fit
    ]),
  )

  -- The best so far stays.
  stay-Chosen :
      (a : Candidate) (id : NodeId) (p : PeerInfo) (r : Map NodeId PeerInfo)
      (res : Option Candidate)
      → beats (id, rank p) a ≡ false
      → Chosen (some a) r res
      → Chosen (some a) ((id, p) ∷ r) res
  stay-Chosen a id p r none loses c = absurd (cc (c.0))
  stay-Chosen a id p r (some b) loses c = (
    elim (c.0) [ inl e ↦ inl e | inr (q, i, fit, v) ↦ inr (q, inr i, fit, v) ],
    c.1,
    (λ j q h fit. elim h [
      | inl e ↦
          subst (λ (t : NodeId × PeerInfo). beats (t.0, rank (t.1)) b ≡ false) e
            (newer_loses b (c.1 a refl))
      | inr i ↦ c.2 j q i fit
    ]),
  )
    where
      newer_loses : (b : Candidate) → beats a b ≡ false → beats (id, rank p) b ≡ false
      newer_loses b h = ground (arith, beats_le (id, rank p) b a)

  next-Chosen :
      (best : Option Candidate) (id : NodeId) (p : PeerInfo) (r : Map NodeId PeerInfo)
      (res : Option Candidate)
      → Chosen (next_best idx now id p best) r res
      → Chosen best ((id, p) ∷ r) res
  unfolding next_best
  next-Chosen best id p r res c = elim (Bool-cases (eligible idx now p)) [
    | inl ok ↦ fits best ok (rw ok at c)
    | inr out ↦ skip-Chosen best id p r res out (rw out at c)
  ]
    where
      fits :
          (best : Option Candidate)
          → eligible idx now p ≡ true
          → Chosen
              (elim best as (λ o. Option Candidate) [
                | none ↦ some (id, rank p)
                | some b ↦ if beats (id, rank p) b then some (id, rank p) else some b
              ])
              r
              res
          → Chosen best ((id, p) ∷ r) res
      fits none ok c = take-Chosen none id p r res ok (λ a e. absurd (cc e)) c
      fits (some a) ok c = elim (Bool-cases (beats (id, rank p) a)) [
        | inl w ↦
            take-Chosen (some a) id p r res ok
              (λ b e. subst (λ t. beats (id, rank p) t ≡ true) (some_inj _ _ e) w) (rw w at c)
        | inr w ↦ stay-Chosen a id p r res w (rw w at c)
      ]

  select_from-Chosen :
      (m : Map NodeId PeerInfo) (best : Option Candidate)
      → Chosen best m (select_from idx now best m)
  unfolding select_from
  select_from-Chosen [] none = (refl, λ id p h. elim h [ ])
  select_from-Chosen [] (some b) = (
    inl refl,
    (λ c e. subst (λ t. beats t b ≡ false) (some_inj _ _ e) (beats_irrefl b)),
    (λ id p h. elim h [ ]),
  )
  select_from-Chosen ((id, p) ∷ r) best =
      next-Chosen best id p r _ (select_from-Chosen r (next_best idx now id p best))

-- A peer that may be asked for a Segment: not demoted, advertising it, and past its cooldown.
pub record CanServe (idx : ℤ) (now : Time) (p : PeerInfo) : Type 0 where
  pub trusted : p.demoted ≡ false
  pub holds : has idx p.have ≡ true
  pub rested : p.busy_until ≤ now

eligible-CanServe :
    (idx : ℤ) (now : Time) (p : PeerInfo) → (eligible idx now p ≡ true) ↔ CanServe idx now p
unfolding eligible
eligible-CanServe idx now p = (
  λ h. record { trusted = ground arith; holds = ground arith; rested = ground arith },
  λ c. ground (arith, c.trusted, c.holds, c.rested),
)

-- What `SelectSource` has to return.
abbrev pub Selected : Swarm → ℤ → Time → Option NodeId → Type 0
Selected s idx now none = (id : NodeId) (p : PeerInfo) → In (id, p) s.peers → ¬ CanServe idx now p
Selected s idx now (some id) =
    (p : PeerInfo) × In (id, p) s.peers
    × CanServe idx now p
    × ((j : NodeId) (q : PeerInfo)
        → In (j, q) s.peers
        → CanServe idx now q
        → beats (j, rank q) (id, rank p) ≡ false)

-- `SelectSource` returns a peer exactly if one can serve the Segment, and then one that can, with the
-- lowest round-trip time, of these the one with the lowest node id; a peer with no measured time
-- counts as an hour away.
pub select_source-Selected :
    (s : Swarm) (idx : ℤ) (now : Time) → Selected s idx now (select_source s idx now)
unfolding select_source
select_source-Selected s idx now =
    of_chosen (select_from idx now none s.peers) (select_from-Chosen idx now s.peers none)
  where
    unable : (p : PeerInfo) → eligible idx now p ≡ false → eligible idx now p ≡ true → ⊥
    unable p a b = cc

    of_chosen :
        (res : Option Candidate)
        → Chosen idx now none s.peers res
        → Selected s idx now (elim res as (λ o. Option NodeId) [ none ↦ none | some b ↦ some b.0 ])
    of_chosen none c = λ id p i can. unable p (c.1 id p i) ((eligible-CanServe idx now p).1 can)
    of_chosen (some b) c = elim (c.0) [
      | inl e ↦ absurd (cc e)
      | inr (p, i, ok, v) ↦ (
        p,
        i,
        (eligible-CanServe idx now p).0 ok,
        λ j q h fit.
            subst (λ t. beats (j, rank q) (b.0, t) ≡ false) v
              (c.2 j q h ((eligible-CanServe idx now q).1 fit)),
      )
    ]

-- The order in which the map of peers is visited does not matter: two engines with the same
-- records select the same source.
pub select_source_order :
    (s t : Swarm) (idx : ℤ) (now : Time)
    → ((e : NodeId × PeerInfo) → In e s.peers ↔ In e t.peers)
    → select_source s idx now ≡ select_source t idx now
select_source_order s t idx now same =
    agree (select_source s idx now) (select_source t idx now) (select_source-Selected s idx now)
      (select_source-Selected t idx now)
  where
    agree : (a b : Option NodeId) → Selected s idx now a → Selected t idx now b → a ≡ b
    agree none none x y = refl
    agree none (some j) x (q, i, ok, w) = absurd (x j q ((same (j, q)).1 i) ok)
    agree (some i) none (p, h, ok, w) y = absurd (y i p ((same (i, p)).0 h) ok)
    agree (some i) (some j) (p, h, ok, w) (q, k, fit, v) =
        ap (λ (c : Candidate). some (c.0))
          (beats-total (i, rank p) (j, rank q) (v i p ((same (i, p)).0 h) ok)
            (w j q ((same (j, q)).1 k) fit))
