-- ===== src/Session/Stores.antt =====
-- Any number of stores at once, by the critical sections of `store` in any order.
use p2p_hls.Prelude.{
  ℕ, zero, suc, ◌≡◌, refl, sym, ap, subst, ◌∙◌, Bool, true, false, not, ◌&&◌, ◌||◌, if◌then◌else◌,
  Option-cases, inl, inr, ℤ, List, [], ◌∷◌, any, lookup, lookup-insert, lookup-select, Option, none,
  some, map_some, int_eq, ◌==◌,
}
use mathlib.Core.Option.{some-injective}
use p2p_hls.Swarm.Haves.{set_have, have_segment, outside}
use p2p_hls.Swarm.Haves.Window.{have-set_have, have-retain}
use p2p_hls.Session.{
  Session, Data, cache_put, cache_retain, window_low, window_high, store_put, store_mark,
  store_trim,
}

-- A session with the stores that are under way: the Segments that are put into the cache and not yet
-- marked in the engine, and the bounds to which the cache is still to be trimmed.
pub record Stores : Type 0 where
  pub session : Session
  pub marking : List ℤ
  pub trimming : List (ℤ × ℤ)

-- A fetch asks for a Segment, which moves the window; a store begins; the store at that place of the
-- list goes on.
pub data StoreEvent : Type 0 where
  moves_to : ℤ → StoreEvent
  puts : ℤ → Data → StoreEvent
  marks trims : ℕ → StoreEvent

abbrev pub take_at {ℓ} : {A : Type ℓ} → ℕ → List A → Option (A × List A)
take_at k [] = none
take_at zero (x ∷ l) = some (x, l)
take_at (suc k) (x ∷ l) = map_some (λ e. (e.0, x ∷ e.1)) (take_at k l)

abbrev pub marked : Stores → Option (ℤ × List ℤ) → Stores
marked st none = st
marked st (some (idx, rest)) =
    let (t, lo, hi) = store_mark st.session idx in
    record { session = t; marking = rest; trimming = (lo, hi) ∷ st.trimming }

abbrev pub trimmed : Stores → Option ((ℤ × ℤ) × List (ℤ × ℤ)) → Stores
trimmed st none = st
trimmed st (some ((lo, hi), rest)) = record st {
  session = store_trim lo hi st.session;
  trimming = rest;
}

unfoldable pub stores_step : Stores → StoreEvent → Stores
stores_step st (moves_to idx) = record st { session = record st.session { last_idx = idx } }
stores_step st (puts idx body) = record st {
  session = store_put st.session idx body;
  marking = idx ∷ st.marking;
}
stores_step st (marks k) = marked st (take_at k st.marking)
stores_step st (trims k) = trimmed st (take_at k st.trimming)

unfoldable pub stores_run : Stores → List StoreEvent → Stores
stores_run st [] = st
stores_run st (e ∷ es) = stores_run (stores_step st e) es

abbrev is_some {ℓ} : {A : Type ℓ} → Option A → Bool
is_some none = false
is_some (some a) = true

-- A cached Segment is advertised, or is still to be marked, or is still to be trimmed away.
abbrev Accounted : Stores → Type 0
Accounted st =
    (j : ℤ)
    → is_some (lookup j st.session.cache) ≡ true
    → (have_segment st.session.eng j
        || (any (λ i. i == j) st.marking || any (λ b. outside b.0 b.1 j) st.trimming))
      ≡ true

any-take_at {ℓ} :
    {A : Type ℓ} (p : A → Bool) (k : ℕ) (l : List A) (x : A) (rest : List A)
    → take_at k l ≡ some (x, rest)
    → any p l ≡ (p x || any p rest)
any-take_at {A = A} p k [] x rest e = absurd (cc e)
any-take_at {A = A} p zero (y ∷ l) x rest e =
    let q = some-injective (y, l) (x, rest) e in ap (λ (z : A × List A). p z.0 || any p z.1) q
any-take_at {A = A} p (suc k) (y ∷ l) x rest e = elim (Option-cases (take_at k l)) [
  | inl q ↦ absurd (cc (e, q))
  | inr ((z, r), q) ↦
      let s = some-injective (z, y ∷ r) (x, rest) (ap (map_some _) (sym q) ∙ e) in
      ap (λ b. p y || b) (any-take_at p k l z r q)
      ∙ exchange (p y) (p z) (any p r)
      ∙ ap (λ (w : A × List A). p w.0 || any p w.1) s
]
  where
    exchange : (a b c : Bool) → (a || (b || c)) ≡ (b || (a || c))
    exchange true true c = refl
    exchange true false c = refl
    exchange false b c = refl

put_or_before :
    (e : Bool) (body : Data) (o : Option Data) (h m t : Bool)
    → (is_some o ≡ true → (h || (m || t)) ≡ true)
    → is_some (if e then some body else o) ≡ true
    → (h || ((e || m) || t)) ≡ true
put_or_before true body o true m t f c = refl
put_or_before true body o false m t f c = refl
put_or_before false body o h m t f c = f c

mark_or_trim :
    (e o h m t : Bool)
    → (h || ((e || m) || t)) ≡ true
    → ((not o && (e || h)) || (m || (o || t))) ≡ true
mark_or_trim e true h true t f = refl
mark_or_trim e true h false t f = refl
mark_or_trim true false h m t f = refl
mark_or_trim false false h m t f = f

trim_inside :
    (o : Bool) (c : Option Data) (h m t : Bool)
    → (is_some c ≡ true → (h || (m || (o || t))) ≡ true)
    → is_some (if not o then c else none) ≡ true
    → (h || (m || t)) ≡ true
trim_inside true c h m t f q = absurd (cc q)
trim_inside false c h m t f q = f q

stores_step-Accounted : (st : Stores) (e : StoreEvent) → Accounted st → Accounted (stores_step st e)
unfolding stores_step store_put store_mark store_trim cache_put cache_retain
stores_step-Accounted st (moves_to idx) a = a
stores_step-Accounted st (puts idx body) a = λ j c.
    put_or_before (idx == j) body (lookup j st.session.cache) _ _ _ (a j)
      (ap is_some (sym (lookup-insert idx j body st.session.cache)) ∙ c)
stores_step-Accounted st (marks k) a = next (take_at k st.marking) refl
  where
    next : (o : Option (ℤ × List ℤ)) → take_at k st.marking ≡ o → Accounted (marked st o)
    next none e = a
    next (some (idx, rest)) e = λ j c.
        let s = st.session in
        let lo = window_low s in
        let hi = window_high s in
        let held =
          (have-retain (set_have s.eng idx) lo hi j).0
          ∙ ap (λ b. not (outside lo hi j) && b) (have-set_have s.eng idx j).0 in
        let before =
          ap (λ b. have_segment s.eng j || (b || any (λ b. outside b.0 b.1 j) st.trimming))
            (sym (any-take_at (λ i. i == j) k st.marking idx rest e))
          ∙ a j c in
        ap
          (λ b.
            b
            || (any (λ i. i == j) rest
                || (outside lo hi j || any (λ b. outside b.0 b.1 j) st.trimming)))
          held
        ∙ mark_or_trim (idx == j) (outside lo hi j) (have_segment s.eng j) (any (λ i. i == j) rest)
            (any (λ b. outside b.0 b.1 j) st.trimming) before
stores_step-Accounted st (trims k) a = next (take_at k st.trimming) refl
  where
    next :
        (o : Option ((ℤ × ℤ) × List (ℤ × ℤ))) → take_at k st.trimming ≡ o → Accounted (trimmed st o)
    next none e = a
    next (some ((lo, hi), rest)) e = λ j c.
        trim_inside (outside lo hi j) (lookup j st.session.cache) (have_segment st.session.eng j)
          (any (λ i. i == j) st.marking) (any (λ b. outside b.0 b.1 j) rest)
          (λ q.
            ap (λ b. have_segment st.session.eng j || (any (λ i. i == j) st.marking || b))
              (sym (any-take_at (λ b. outside b.0 b.1 j) k st.trimming (lo, hi) rest e))
            ∙ a j q)
          (ap is_some (sym (lookup-select j (λ k. not (outside lo hi k)) st.session.cache)) ∙ c)

stores_run-Accounted :
    (st : Stores) (es : List StoreEvent) → Accounted st → Accounted (stores_run st es)
unfolding stores_run
stores_run-Accounted st [] a = a
stores_run-Accounted st (e ∷ es) a =
    stores_run-Accounted (stores_step st e) es (stores_step-Accounted st e a)

-- Whatever stores run at once and however their critical sections and the requests that move the window
-- interleave: when all of them are through, every Segment that is cached is advertised, so that no cached
-- bytes are lost to the mesh, if that was so before. Whether all that is advertised is cached is not
-- said: one store may trim away what another has just put in.
pub stores_run-advertised :
    (s : Session) (es : List StoreEvent) (j : ℤ) (d : Data)
    → ((i : ℤ) (b : Data) → lookup i s.cache ≡ some b → have_segment s.eng i ≡ true)
    → let st = stores_run record { session = s; marking = []; trimming = [] } es in
      st.marking ≡ []
      → st.trimming ≡ []
      → lookup j st.session.cache ≡ some d
      → have_segment st.session.eng j ≡ true
stores_run-advertised s es j d before no_marks no_trims cached = done _ (
    subst
      (λ (l : List (ℤ × ℤ)).
        (have_segment st.session.eng j || (any (λ i. i == j) [] || any (λ b. outside b.0 b.1 j) l))
        ≡ true)
      no_trims
      (subst
        (λ (l : List ℤ).
          (have_segment st.session.eng j
            || (any (λ i. i == j) l || any (λ b. outside b.0 b.1 j) st.trimming))
          ≡ true)
        no_marks (stores_run-Accounted quiet es start j (ap is_some cached))))
  where
    quiet : Stores
    quiet = record { session = s; marking = []; trimming = [] }

    st : Stores
    st = stores_run quiet es

    start : Accounted quiet
    start i c = elim (Option-cases (lookup i s.cache)) [
      | inl e ↦ absurd (cc (c, e))
      | inr (b, e) ↦ ap (λ h. h || false) (before i b e)
    ]

    done : (h : Bool) → (h || false) ≡ true → h ≡ true
    done true e = refl
    done false e = e
