-- ===== src/Session/Verified.antt =====
-- The bytes that a fetch returns are those that the Host has published.
use p2p_hls.Prelude.{
  ℕ, zero, suc, ◌+◌, ◌≡◌, ◌≢◌, refl, sym, subst, ◌∙◌, GoString, Bool, true, false, not, ◌&&◌,
  if◌then◌else◌, Bool-cases, Option-cases, inl, inr, ℤ, [], lookup, none, some, int_eq, string_eq,
  ◌==◌, ==_iff,
}
use p2p_hls.Party.Types.{NodeId}
use p2p_hls.Swarm.Select.{select_source}
use p2p_hls.Swarm.Integrity.{verify_segment, seg_index}
use p2p_hls.Session.{Session, Data, store, cache_get}
use p2p_hls.Session.Fetch.{
  World, Fetched, fetched, lacks, fails, Pulled, pulled, exhausted, again, settle, round, pull,
  from_host, expected_hash, fetch_checked, fetch_segment, Result, found, host_fails, unavailable,
  unfinished,
}

module _ (w : World) (idx : ℤ) (name want : GoString) where
  abbrev Genuine : Result → Type 0
  Genuine (found body) = verify_segment w.sum256 body want ≡ true
  Genuine host_fails = Unit
  Genuine unavailable = Unit
  Genuine unfinished = Unit

  abbrev Pulls : Pulled → Type 0
  Pulls (pulled body s) = verify_segment w.sum256 body want ≡ true
  Pulls (exhausted s) = Unit
  Pulls (again s) = Unit

  settle-Pulls :
      (i : ℕ) (src : NodeId) (s : Session) (a : Fetched) → Pulls (settle w i idx want src s a)
  unfolding settle
  settle-Pulls i src s (fetched body) = elim (Bool-cases (verify_segment w.sum256 body want)) [
    | inl e ↦ rw e e
    | inr e ↦ rw e tt
  ]
  settle-Pulls i src s lacks = tt
  settle-Pulls i src s fails = tt

  round-Pulls : (i : ℕ) (s : Session) → Pulls (round w i idx name want s)
  unfolding round
  round-Pulls i s = elim (Option-cases (select_source s.eng idx (w.selects_at i))) [
    | inl e ↦ rw (e, round) tt
    | inr (src, e) ↦ rw (e, round) (settle-Pulls i src (w.meanwhile i s) (w.answer i src name))
  ]

  pull-Pulls : (fuel i : ℕ) (s : Session) → Pulls (pull w fuel i idx name want s)
  unfolding pull
  pull-Pulls zero i s = tt
  pull-Pulls (suc fuel) i s =
      next (round w i idx name want s) (round-Pulls i s) (λ t. pull-Pulls fuel (i + 1) t)
    where
      next :
          (r : Pulled)
          → Pulls r
          → ((t : Session) → Pulls (pull w fuel (i + 1) idx name want t))
          → Pulls (elim r as (λ x. Pulled) [
            | pulled body t ↦ pulled body t
            | exhausted t ↦ exhausted t
            | again t ↦ pull w fuel (i + 1) idx name want t
          ])
      next (pulled body t) k rest = k
      next (exhausted t) k rest = k
      next (again t) k rest = rest t

  from_host-Genuine : (s : Session) → want ≢ [] → Genuine (from_host w idx want s).0
  unfolding from_host
  from_host-Genuine s ne = elim (Option-cases w.host_segment) [
    | inl e ↦ rw (e, from_host) tt
    | inr (body, e) ↦
        rw (e, from_host)
          (choose (want == []) (verify_segment w.sum256 body want) body refl
            (λ q. ne ((==_iff want []).0 q)))
  ]
    where
      choose :
          (none_given ok : Bool) (body : Data)
          → verify_segment w.sum256 body want ≡ ok
          → none_given ≢ true
          → Genuine
              (if◌then◌else◌ {A = Result × Session}
                (not none_given && not ok)
                (unavailable, s)
                (found body, store w.after_put w.after_mark s idx body)).0
      choose true ok body e h = absurd (h refl)
      choose false true body e h = e
      choose false false body e h = tt

  fetch_checked-Genuine :
      (fuel : ℕ) (s : Session) → want ≢ [] → Genuine (fetch_checked w fuel idx name want s).0
  unfolding fetch_checked
  fetch_checked-Genuine fuel s ne = elim (Bool-cases (want == [])) [
    | inl e ↦ absurd (ne ((==_iff want []).0 e))
    | inr e ↦ rw (e, fetch_checked) (last (pull w fuel 0 idx name want s) (pull-Pulls fuel 0 s))
  ]
    where
      last :
          (r : Pulled)
          → Pulls r
          → Genuine
              (elim r as (λ x. Result × Session) [
                | pulled body t ↦ (found body, t)
                | exhausted t ↦ from_host w idx want t
                | again t ↦ (unfinished, t)
              ]).0
      last (pulled body t) k = k
      last (exhausted t) k = from_host-Genuine t ne
      last (again t) k = tt

-- No unverified bytes: when the session knows the published hash of a Segment that is not cached, the
-- bytes that a fetch returns have that hash, whichever peers or the Host they come from, and whatever
-- these answer and other goroutines do meanwhile.
pub fetch_segment-verified :
    (w : World) (fuel : ℕ) (name want : GoString) (idx : ℤ) (s : Session) (body : Data)
    → seg_index name ≡ some idx
    → lookup idx s.cache ≡ none
    → lookup name s.hashes ≡ some want
    → want ≢ []
    → (fetch_segment w fuel name s).0 ≡ found body
    → verify_segment w.sum256 body want ≡ true
unfolding fetch_segment cache_get expected_hash
fetch_segment-verified w fuel name want idx s body e c h ne r =
    subst (Genuine w idx name want) (sym checked ∙ r)
      (fetch_checked-Genuine w idx name want fuel (record s { last_idx = idx }) ne)
  where
    checked :
        (fetch_segment w fuel name s).0
        ≡ (fetch_checked w fuel idx name want (record s { last_idx = idx })).0
    checked = rw (e, c, h, fetch_segment, expected_hash) refl
