-- ===== src/Session/Uploads.antt =====
-- The upload cap: how many Segments a node serves at a time.
use p2p_hls.Prelude.{
  ℕ, ◌+◌, ◌-◌, ◌≤◌, ◌≡◌, refl, ◌↔◌, GoString, if◌then◌else◌, Bool-cases, Option-cases, inl, inr,
  ltb, ℤ, List, [], ◌∷◌, lookup, some, int_eq, arith,
}
use p2p_hls.Swarm.Integrity.{seg_index}
use p2p_hls.Session.{
  Session, Data, Answer, not_found, busy, serves, swarm_segment, release, cache_get,
}

-- A peer asks for a Segment, or the sending of a served one ends.
pub data Upload : Type 0 where
  asks : GoString → Upload
  ends : Upload

-- The answers that served something, one for each.
abbrev served : Answer → ℕ
served not_found = 0
served busy = 0
served (serves body) = 1

-- The session after a sequence of uploads, and how many were served and not yet ended; an end
-- without a served Segment does not happen.
unfoldable pub upload : Session × ℕ → Upload → Session × ℕ
upload (s, sending) (asks name) =
    ((swarm_segment s name).0, sending + served (swarm_segment s name).1)
upload (s, sending) ends = if ltb 0 sending then (release s, sending - 1) else (s, sending)

unfoldable pub uploads_run : Session × ℕ → List Upload → Session × ℕ
uploads_run p [] = p
uploads_run p (u ∷ us) = uploads_run (upload p u) us

-- The semaphore counts the sending uploads, within the cap.
record Counted (cap : ℕ) (p : Session × ℕ) : Type 0 where
  counts : p.0.uploads ≡ p.1
  capped : p.0.uploads ≤ cap
  cap_is : p.0.cfg.upload_cap ≡ cap

upload-Counted : (cap : ℕ) (p : Session × ℕ) (u : Upload) → Counted cap p → Counted cap (upload p u)
unfolding upload swarm_segment cache_get release
upload-Counted cap (s, sending) ends c = record {
  counts = ground (arith, c.counts);
  capped = ground (arith, c.capped);
  cap_is = ground (arith, c.cap_is);
}
upload-Counted cap (s, sending) (asks name) c = elim (Option-cases (seg_index name)) [
  | inl e ↦
      rw (e, swarm_segment)
        (record { counts = omega (arith, c.counts); capped = c.capped; cap_is = c.cap_is })
  | inr (idx, e) ↦ elim (Bool-cases (ltb s.uploads s.cfg.upload_cap)) [
    | inl room ↦ elim (Option-cases (lookup idx s.cache)) [
      | inl q ↦
          rw (e, room, q, swarm_segment)
            (record { counts = omega (arith, c.counts); capped = c.capped; cap_is = c.cap_is })
      | inr (b, q) ↦
          rw (e, room, q, swarm_segment)
            (record {
              counts = omega (arith, c.counts);
              capped = ground (arith, c.cap_is);
              cap_is = c.cap_is;
            })
    ]
    | inr full ↦
        rw (e, full, swarm_segment)
          (record { counts = omega (arith, c.counts); capped = c.capped; cap_is = c.cap_is })
  ]
]

run-Counted :
    (cap : ℕ) (p : Session × ℕ) (us : List Upload) → Counted cap p → Counted cap (uploads_run p us)
unfolding uploads_run
run-Counted cap p [] c = c
run-Counted cap p (u ∷ us) c = run-Counted cap (upload p u) us (upload-Counted cap p u c)

-- However peers ask and sends end, the Segments that a node is sending at one time are never more
-- than its upload cap, and none of the semaphore's tokens is lost: it holds one for each.
pub uploads_run-bound :
    (s : Session) (us : List Upload)
    → s.uploads ≡ 0
    → ((uploads_run (s, 0) us).1 ≤ s.cfg.upload_cap)
      × ((uploads_run (s, 0) us).0.uploads ≡ (uploads_run (s, 0) us).1)
uploads_run-bound s us e =
    let c =
      run-Counted s.cfg.upload_cap (s, 0) us
        (record { counts = e; capped = omega (arith, e); cap_is = refl }) in
    (omega (arith, c.counts, c.capped), c.counts)

-- A peer is told to come back later exactly if the name is a Segment's and the cap is reached.
pub swarm_segment-busy :
    (s : Session) (name : GoString) (idx : ℤ)
    → seg_index name ≡ some idx
    → ((swarm_segment s name).1 ≡ busy) ↔ (s.cfg.upload_cap ≤ s.uploads)
unfolding swarm_segment cache_get
swarm_segment-busy s name idx e = elim (Bool-cases (ltb s.uploads s.cfg.upload_cap)) [
  | inl room ↦ elim (Option-cases (lookup idx s.cache)) [
    | inl q ↦ rw (e, room, q, swarm_segment) ((λ h. absurd (differ h)), (λ h. ground arith))
    | inr (b, q) ↦ rw (e, room, q, swarm_segment) ((λ h. absurd (other b h)), (λ h. ground arith))
  ]
  | inr full ↦ rw (e, full, swarm_segment) ((λ h. ground arith), (λ h. refl))
]
  where
    differ : not_found ≡ busy → ⊥
    differ h = cc

    other : (b : Data) → serves b ≡ busy → ⊥
    other b h = cc
