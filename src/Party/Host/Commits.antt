-- ===== src/Party/Host/Commits.antt =====
-- When the Host's sequence number moves, and how a scrub is committed.
use p2p_hls.Prelude.{
  ℕ, ◌+◌, ◌<◌, ◌≡◌, Bool, true, false, if◌then◌else◌, ℤ, ◌≤ℤ◌, leb_ℤ, ◌&&◌, List, [], ◌∷◌, Option,
  none, some, arith,
}
use p2p_hls.Party.Types.{Time, since}
use p2p_hls.Party.Host.{
  Host, Event, plays, pauses, reports, seeks, ticks, joins, leaves, step, run, on_play, on_pause,
  on_report, on_seek, tick, commit, join, leave, next_seq,
}

-- Whether an event is an observable change: a play, a pause, or a tick that commits a seek.
unfoldable pub changes : Host → Time × Event → Bool
changes h (now, plays p) = true
changes h (now, pauses p) = true
changes h (now, ticks) = h.scrubbing && leb_ℤ h.cfg.seek_debounce (since now h.last_seek_input)
changes h (now, e) = false

unfoldable pub count_changes : Host → List (Time × Event) → ℕ
count_changes h [] = 0
count_changes h (e ∷ es) = (if changes h e then 1 else 0) + count_changes (step h e) es

step-seq :
    (h : Host) (e : Time × Event)
    → h.seq + (if changes h e then 1 else 0) < 18446744073709551616
    → (step h e).seq ≡ h.seq + (if changes h e then 1 else 0)
unfolding step changes on_play on_pause on_report on_seek tick join leave
step-seq h (now, plays p) lt = ground arith
step-seq h (now, pauses p) lt = ground arith
step-seq h (now, reports p) lt = ground arith
step-seq h (now, seeks p) lt = ground arith
step-seq h (now, ticks) lt = ground arith
step-seq h (now, joins m name) lt = ground arith
step-seq h (now, leaves m) lt = ground arith

-- Up to the range of a uint64 the sequence number counts exactly the plays, the pauses and the
-- committed seeks of the history: reports, unsettled scrubbing and audience changes do not move it.
pub run-seq :
    (h : Host) (es : List (Time × Event))
    → h.seq + count_changes h es < 18446744073709551616
    → (run h es).seq ≡ h.seq + count_changes h es
unfolding run count_changes
run-seq h [] lt = omega arith
run-seq h (e ∷ es) lt = omega (
  arith,
  run-seq (step h e) es (omega (arith, step-seq h e (omega arith))),
  step-seq h e (omega arith),
)

-- The time and the target of the latest seek of a scrub that began at `t` with target `p`, if all
-- that happens are seeks, reports, audience changes, and ticks within the debounce time of the
-- latest seek.
unfoldable pub scrubbed : ℤ → Time → ℤ → List (Time × Event) → Option (Time × ℤ)
scrubbed d t p [] = some (t, p)
scrubbed d t p ((now, plays q) ∷ es) = none
scrubbed d t p ((now, pauses q) ∷ es) = none
scrubbed d t p ((now, reports q) ∷ es) = scrubbed d t p es
scrubbed d t p ((now, seeks q) ∷ es) = scrubbed d now q es
scrubbed d t p ((now, ticks) ∷ es) = if leb_ℤ d (since now t) then none else scrubbed d t p es
scrubbed d t p ((now, joins m name) ∷ es) = scrubbed d t p es
scrubbed d t p ((now, leaves m) ∷ es) = scrubbed d t p es

-- What a scrub leaves of the host: the target is pending, and nothing else of playback moved.
pub record Pending (h k : Host) (t : Time) (p : ℤ) : Type 0 where
  pub scrubbing : k.scrubbing ≡ true
  pub target : k.pending_seek_ms ≡ p
  pub input : k.last_seek_input ≡ t
  pub cfg : k.cfg ≡ h.cfg
  pub playing : k.playing ≡ h.playing
  pub anchor : k.pos_ms ≡ h.pos_ms
  pub seq : k.seq ≡ h.seq

run-Pending :
    (h k : Host) (t : Time) (p : ℤ) (es : List (Time × Event)) (u : Time) (q : ℤ)
    → Pending h k t p
    → scrubbed h.cfg.seek_debounce t p es ≡ some (u, q)
    → Pending h (run k es) u q
unfolding run scrubbed step on_report on_seek tick commit join leave
run-Pending h k t p [] u q s e = ground arith
run-Pending h k t p ((now, plays r) ∷ es) u q s e = cc
run-Pending h k t p ((now, pauses r) ∷ es) u q s e = cc
run-Pending h k t p ((now, reports r) ∷ es) u q s e =
    run-Pending h (step k (now, reports r)) t p es u q (ground arith) e
run-Pending h k t p ((now, seeks r) ∷ es) u q s e =
    run-Pending h (step k (now, seeks r)) now r es u q (ground arith) e
run-Pending h k t p ((now, ticks) ∷ es) u q s e =
    run-Pending h (step k (now, ticks)) t p es u q (ground arith) (ground arith)
run-Pending h k t p ((now, joins m name) ∷ es) u q s e =
    run-Pending h (step k (now, joins m name)) t p es u q (ground arith) e
run-Pending h k t p ((now, leaves m) ∷ es) u q s e =
    run-Pending h (step k (now, leaves m)) t p es u q (ground arith) e

tick-Pending :
    (h k : Host) (u : Time) (q : ℤ) (now : Time)
    → Pending h k u q
    → h.cfg.seek_debounce ≤ℤ since now u
    → ((tick k now).2 ≡ true)
      × ((tick k now).0.seq ≡ next_seq h.seq)
      × ((tick k now).0.pos_ms ≡ q)
      × ((tick k now).0.sampled_at ≡ now)
      × ((tick k now).0.scrubbing ≡ false)
      × ((tick k now).0.playing ≡ h.playing)
unfolding tick
tick-Pending h k u q now s late = ground arith

-- A scrub is committed once: after any number of seeks, with reports, early ticks and audience
-- changes among them, the first tick that comes the debounce time or more after the latest seek
-- moves the host to that seek's target, at that tick's time, advances the sequence number once,
-- and keeps whether it plays. During the scrub the sequence number stood still.
pub tick-scrub :
    (h : Host) (t : Time) (p : ℤ) (es : List (Time × Event)) (u : Time) (q : ℤ) (now : Time)
    → scrubbed h.cfg.seek_debounce t p es ≡ some (u, q)
    → h.cfg.seek_debounce ≤ℤ since now u
    → let k = run (on_seek h p t) es in
      let after = tick k now in
      (k.seq ≡ h.seq)
      × (after.2 ≡ true)
      × (after.0.seq ≡ next_seq h.seq)
      × (after.0.pos_ms ≡ q)
      × (after.0.sampled_at ≡ now)
      × (after.0.scrubbing ≡ false)
      × (after.0.playing ≡ h.playing)
unfolding on_seek
tick-scrub h t p es u q now e late =
    let s = run-Pending h (on_seek h p t) t p es u q (ground arith) e in
    let c = tick-Pending h (run (on_seek h p t) es) u q now s late in
    (s.seq, c.0, c.1, c.2, c.3, c.4, c.5)
