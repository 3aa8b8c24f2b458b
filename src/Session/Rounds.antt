-- ===== src/Session/Rounds.antt =====
-- The loop over the peers ends: every failed round takes its peer out of the running.
use p2p_hls.Prelude.{
  ℕ, zero, suc, ◌+◌, ◌≤◌, ◌<◌, ◌≡◌, ◌≢◌, refl, sym, ap, subst, ◌∙◌, GoString, Bool, true, false,
  not, ◌&&◌, if◌then◌else◌, Bool-cases, Option-cases, inl, inr, ltb, ℤ, [], ◌∷◌, has, length,
  Distinct, keys, lookup, insert, lookup_of_In, insert-Distinct, Map, Option, none, some, int_eq,
  string_eq, ◌==◌, arith,
}
use p2p_hls.Party.Types.{NodeId, Time}
use p2p_hls.Swarm.Engine.{Swarm, PeerInfo}
use p2p_hls.Swarm.Peers.{demote, mark_busy, update_peer}
use p2p_hls.Swarm.Select.{select_source}
use p2p_hls.Swarm.Select.Best.{CanServe, Selected, select_source-Selected}
use p2p_hls.Swarm.Integrity.{verify_segment, seg_index}
use p2p_hls.Session.{Session, Data, cache_get, store}
use p2p_hls.Session.Fetch.{
  World, Fetched, fetched, lacks, fails, Pulled, pulled, exhausted, again, settle, round, pull,
  from_host, expected_hash, fetch_checked, fetch_segment, Result, found, host_fails, unavailable,
  unfinished,
}

-- A peer that some source selection before the horizon may still pick.
open_until : ℤ → Time → PeerInfo → Bool
open_until idx horizon p = not p.demoted && has idx p.have && ltb p.busy_until horizon

open_count : ℤ → Time → Map NodeId PeerInfo → ℕ
open_count idx horizon [] = 0
open_count idx horizon ((n, p) ∷ m) =
    (if open_until idx horizon p then 1 else 0) + open_count idx horizon m

open_count-le :
    (idx : ℤ) (horizon : Time) (m : Map NodeId PeerInfo) → open_count idx horizon m ≤ length m
unfolding open_count
open_count-le idx horizon [] = omega arith
open_count-le idx horizon ((n, p) ∷ m) = ground (arith, open_count-le idx horizon m)

open_count-insert :
    (idx : ℤ) (horizon : Time) (n : NodeId) (p q : PeerInfo) (m : Map NodeId PeerInfo)
    → lookup n m ≡ some p
    → open_until idx horizon p ≡ true
    → open_until idx horizon q ≡ false
    → suc (open_count idx horizon (insert n q m)) ≡ open_count idx horizon m
unfolding open_count lookup insert
open_count-insert idx horizon n p q [] l a b = absurd (none_some l)
  where
    none_some : ◌≡◌ {A = Option PeerInfo} none (some p) → ⊥
    none_some h = cc
open_count-insert idx horizon n p q ((j, v) ∷ m) l a b = elim (Bool-cases (j == n)) [
  | inl e ↦ rw e (ground (arith, ap (open_until idx horizon) (same (rw e at l))))
  | inr e ↦ rw e (ground (arith, open_count-insert idx horizon n p q m (rw e at l) a b))
]
  where
    same : some v ≡ some p → v ≡ p
    same h = cc

shut_off :
    (idx : ℤ) (horizon : Time) (p : PeerInfo)
    → open_until idx horizon (record p { demoted = true; have = [] }) ≡ false
unfolding open_until
shut_off idx horizon p = refl

cooled :
    (idx : ℤ) (horizon t : Time) (p : PeerInfo)
    → horizon ≤ t
    → open_until idx horizon (record p { busy_until = t }) ≡ false
unfolding open_until
cooled idx horizon t p le = ground arith

can-open :
    (idx : ℤ) (now horizon : Time) (p : PeerInfo)
    → now < horizon
    → CanServe idx now p
    → open_until idx horizon p ≡ true
unfolding open_until
can-open idx now horizon p lt c = ground (arith, c.trusted, c.holds, c.rested)

-- An engine in which fewer than `n` peers can still be picked.
record Few (idx : ℤ) (horizon cooldown : Time) (n : ℕ) (s : Swarm) : Type 0 where
  distinct : Distinct (keys s.peers)
  few : open_count idx horizon s.peers < n
  cooldown_is : s.cfg.busy_cooldown ≡ cooldown

update_peer-Few :
    (idx : ℤ) (horizon cooldown : Time) (n : ℕ) (s : Swarm) (src : NodeId) (p : PeerInfo)
    (f : PeerInfo → PeerInfo)
    → lookup src s.peers ≡ some p
    → open_until idx horizon p ≡ true
    → open_until idx horizon (f p) ≡ false
    → Few idx horizon cooldown (suc n) s
    → Few idx horizon cooldown n (update_peer s src f)
unfolding update_peer
update_peer-Few idx horizon cooldown n s src p f l a b w =
    rw (l, update_peer)
      (record {
        distinct = insert-Distinct src (f p) s.peers w.distinct;
        few = omega (arith, w.few, open_count-insert idx horizon src p (f p) s.peers l a b);
        cooldown_is = w.cooldown_is;
      })

-- What the loop goes on with.
abbrev Onward : (Session → Type 0) → Pulled → Type 0
Onward p (pulled body s) = Unit
Onward p (exhausted s) = Unit
Onward p (again s) = p s

abbrev Finished : Result → Type 0
Finished (found body) = Unit
Finished host_fails = Unit
Finished unavailable = Unit
Finished unfinished = ⊥

module _ (w : World) (idx : ℤ) (want : GoString) (horizon cooldown : Time)
    (before : (i : ℕ) → w.selects_at i < horizon)
    (cools : (i : ℕ) → horizon ≤ w.marks_at i + cooldown)
    (alone : (i : ℕ) (t : Session) → (w.meanwhile i t).eng ≡ t.eng) where
  settle-Few :
      (i n : ℕ) (src : NodeId) (p : PeerInfo) (s : Session) (a : Fetched)
      → lookup src s.eng.peers ≡ some p
      → open_until idx horizon p ≡ true
      → Few idx horizon cooldown (suc n) s.eng
      → Onward (λ t. Few idx horizon cooldown n t.eng) (settle w i idx want src s a)
  unfolding settle demote mark_busy
  settle-Few i n src p s (fetched body) l o f =
      elim (Bool-cases (verify_segment w.sum256 body want)) [
        | inl e ↦ rw e tt
        | inr e ↦
            rw e
              (update_peer-Few idx horizon cooldown n s.eng src p _ l o (shut_off idx horizon p) f)
      ]
  settle-Few i n src p s lacks l o f =
      update_peer-Few idx horizon cooldown n s.eng src p _ l o (shut_off idx horizon p) f
  settle-Few i n src p s fails l o f =
      update_peer-Few idx horizon cooldown n s.eng src p _ l o
        (cooled idx horizon _ p (omega (arith, cools i, f.cooldown_is))) f

  round-Few :
      (i n : ℕ) (name : GoString) (s : Session)
      → Few idx horizon cooldown (suc n) s.eng
      → Onward (λ t. Few idx horizon cooldown n t.eng) (round w i idx name want s)
  unfolding round
  round-Few i n name s f = elim (Option-cases (select_source s.eng idx (w.selects_at i))) [
    | inl e ↦ rw (e, round) tt
    | inr (src, e) ↦
        (let (p, member, can, best) =
            subst (Selected s.eng idx (w.selects_at i)) e
              (select_source-Selected s.eng idx (w.selects_at i)) in
          rw (e, round)
            (settle-Few i n src p (w.meanwhile i s) (w.answer i src name)
              (ap (λ t. lookup src t.peers) (alone i s)
                ∙ lookup_of_In src p s.eng.peers f.distinct member)
              (can-open idx (w.selects_at i) horizon p (before i) can)
              (subst (Few idx horizon cooldown (suc n)) (sym (alone i s)) f)))
  ]

  -- With fuel for every peer that can still be picked, the loop ends.
  pull-ends :
      (fuel i : ℕ) (name : GoString) (s : Session)
      → Few idx horizon cooldown fuel s.eng
      → Onward (λ t. ⊥) (pull w fuel i idx name want s)
  unfolding pull
  pull-ends zero i name s f = omega (arith, f.few)
  pull-ends (suc fuel) i name s f =
      next (round w i idx name want s) (round-Few i fuel name s f)
        (λ t g. pull-ends fuel (i + 1) name t g)
    where
      next :
          (r : Pulled)
          → Onward (λ t. Few idx horizon cooldown fuel t.eng) r
          → ((t : Session)
              → Few idx horizon cooldown fuel t.eng
              → Onward (λ u. ⊥) (pull w fuel (i + 1) idx name want t))
          → Onward
              (λ u. ⊥)
              (elim r as (λ x. Pulled) [
                | pulled body t ↦ pulled body t
                | exhausted t ↦ exhausted t
                | again t ↦ pull w fuel (i + 1) idx name want t
              ])
      next (pulled body t) k rest = tt
      next (exhausted t) k rest = tt
      next (again t) k rest = rest t k

  from_host-Finished : (s : Session) → Finished (from_host w idx want s).0
  unfolding from_host
  from_host-Finished s = elim (Option-cases w.host_segment) [
    | inl e ↦ rw (e, from_host) tt
    | inr (body, e) ↦
        rw (e, from_host)
          (choose (not (want == []) && not (verify_segment w.sum256 body want)) body)
  ]
    where
      choose :
          (b : Bool) (body : Data)
          → Finished
              (if◌then◌else◌ {A = Result × Session} b
                (unavailable, s)
                (found body, store w.after_put w.after_mark s idx body)).0
      choose true body = tt
      choose false body = tt

  fetch_checked-Finished :
      (fuel : ℕ) (name : GoString) (s : Session)
      → Few idx horizon cooldown fuel s.eng
      → Finished (fetch_checked w fuel idx name want s).0
  unfolding fetch_checked
  fetch_checked-Finished fuel name s f = elim (Bool-cases (want == [])) [
    | inl e ↦ rw (e, fetch_checked) (from_host-Finished s)
    | inr e ↦
        rw (e, fetch_checked) (last (pull w fuel 0 idx name want s) (pull-ends fuel 0 name s f))
  ]
    where
      last :
          (r : Pulled)
          → Onward (λ t. ⊥) r
          → Finished
              (elim r as (λ x. Result × Session) [
                | pulled body t ↦ (found body, t)
                | exhausted t ↦ from_host w idx want t
                | again t ↦ (unfinished, t)
              ]).0
      last (pulled body t) k = tt
      last (exhausted t) k = from_host-Finished t
      last (again t) k = k

-- When other goroutines leave the engine alone and the clock stays, during the fetch, within one
-- busy cooldown of its start.
pub record Calm (w : World) (start : Time) (cooldown : ℕ) : Type 0 where
  pub alone : (i : ℕ) (t : Session) → (w.meanwhile i t).eng ≡ t.eng
  pub before : (i : ℕ) → w.selects_at i < start + cooldown
  pub after_start : (i : ℕ) → start ≤ w.marks_at i

expected_hash-eng :
    (w : World) (name : GoString) (s : Session) → (expected_hash w name s).1.eng ≡ s.eng
unfolding expected_hash
expected_hash-eng w name s = ground arith

-- A fetch ends: with one round more than there are peers it comes to bytes or to an error and is
-- never left unfinished, whatever the peers and the Host answer, if the peers have one record each,
-- other goroutines leave the engine alone, and the clock stays within one busy cooldown of the start.
pub fetch_segment-ends :
    (w : World) (fuel : ℕ) (name : GoString) (s : Session) (start : Time)
    → Distinct (keys s.eng.peers)
    → Calm w start s.eng.cfg.busy_cooldown
    → length s.eng.peers < fuel
    → (fetch_segment w fuel name s).0 ≢ unfinished
unfolding fetch_segment cache_get
fetch_segment-ends w fuel name s start d calm lt = elim (Option-cases (seg_index name)) [
  | inl e ↦ rw (e, fetch_segment) (host_ends w.host_segment)
  | inr (idx, e) ↦ elim (Option-cases (lookup idx s.cache)) [
    | inr (b, q) ↦ rw (e, q, fetch_segment) (λ h. cc)
    | inl q ↦
        rw (e, q, fetch_segment)
          (let k = expected_hash w name (record s { last_idx = idx }) in
            let same = expected_hash-eng w name (record s { last_idx = idx }) in
            is_finished _ (
              fetch_checked-Finished w idx k.0 (start + s.eng.cfg.busy_cooldown)
                s.eng.cfg.busy_cooldown calm.before (λ i. omega (arith, calm.after_start i))
                calm.alone fuel name k.1
                (subst (Few idx (start + s.eng.cfg.busy_cooldown) s.eng.cfg.busy_cooldown fuel)
                  (sym same)
                  (record {
                    distinct = d;
                    few =
                        omega
                          (arith, open_count-le idx (start + s.eng.cfg.busy_cooldown) s.eng.peers);
                    cooldown_is = refl;
                  }))))
  ]
]
  where
    is_finished : (r : Result) → Finished r → r ≢ unfinished
    is_finished r f e = subst Finished e f

    host_ends :
        (o : Option Data)
        → elim o as (λ x. Result) [ none ↦ host_fails | some body ↦ found body ] ≢ unfinished
    host_ends none h = cc
    host_ends (some body) h = cc
