-- ===== src/Party/Sync.antt =====
-- The Host's interpolation against the Viewer's extrapolation.
use p2p_hls.Prelude.{
  ℕ, ◌+◌, ◌-◌, ◌/◌, ◌≤◌, ◌<◌, ◌≡◌, refl, sym, ap, ◌∙◌, Bool, true, false, List, [], ◌∷◌, All, ℤ,
  pos, pos_part, neg_part, ◌+ℤ◌, ◌≤ℤ◌, ◌<ℤ◌, subst, int64, InInt64, int64_in_range, quot, arith,
  int_laws,
}
use p2p_hls.Party.Types.{Time, State, since, milliseconds}
use p2p_hls.Party.Host.{Host, on_seek, snapshot, commit, tick}
use p2p_hls.Party.Viewer.{Viewer, on_state, on_states, decide, correct, expected_host_pos}
use p2p_hls.Party.Viewer.States.{on_state_same_seq}

-- An arrival time at which the one-way delay is exactly the viewer's estimate, all in whole
-- nanoseconds on one clock.
pub record Delivered (h : Host) (v : Viewer) (sent arrived now : Time) : Type 0 where
  pub playing : h.playing ≡ true
  pub settled : h.scrubbing ≡ false
  pub sampled : h.sampled_at ≤ sent
  pub later : sent ≤ arrived
  pub last : arrived ≤ now
  pub delay : v.owd_ms ≡ milliseconds (since arrived sent)
  pub fresh : v.have_state ≡ true → v.last.seq < h.seq
  pub room : pos_part h.pos_ms + now < 9223372036854775808
  pub floor : neg_part h.pos_ms ≤ 9223372036854775808

milliseconds-since : (t u : Time) → u ≤ t → milliseconds (since t u) ≡ pos ((t - u) / 1000000)
unfolding quot
milliseconds-since t u h = ground arith

add-InInt64 :
    (a : ℤ) (n : ℕ)
    → pos_part a + n < 9223372036854775808
    → neg_part a ≤ 9223372036854775808
    → InInt64 (a +ℤ pos n)
unfolding ◌+ℤ◌
add-InInt64 a n h k = ground arith

snapshot_position :
    (h : Host) (t : Time)
    → h.playing ≡ true
    → h.scrubbing ≡ false
    → h.sampled_at ≤ t
    → pos_part h.pos_ms + t < 9223372036854775808
    → neg_part h.pos_ms ≤ 9223372036854775808
    → (snapshot h t).position_ms ≡ h.pos_ms +ℤ pos ((t - h.sampled_at) / 1000000)
unfolding snapshot
snapshot_position h t p s le room floor = ground (
  arith,
  milliseconds-since t h.sampled_at le,
  int64_in_range (h.pos_ms +ℤ pos ((t - h.sampled_at) / 1000000))
      (add-InInt64 h.pos_ms _ (omega arith) floor),
)

-- The host's state as it is received.
followed :
    (h : Host) (v : Viewer) (sent arrived now : Time)
    → Delivered h v sent arrived now
    → expected_host_pos (on_state v (snapshot h sent) arrived) now
      ≡ int64 ((snapshot h sent).position_ms +ℤ v.owd_ms +ℤ milliseconds (since now arrived))
unfolding expected_host_pos on_state snapshot
followed h v sent arrived now d = ground (arith, d.fresh)

sum_pos : (x : ℤ) (a b c : ℕ) → x +ℤ pos a +ℤ pos b +ℤ pos c ≡ x +ℤ pos (a + b + c)
sum_pos x a b c = omega int_laws

expected_position :
    (h : Host) (v : Viewer) (sent arrived now : Time)
    → Delivered h v sent arrived now
    → expected_host_pos (on_state v (snapshot h sent) arrived) now
      ≡ h.pos_ms
        +ℤ pos (
            (sent - h.sampled_at) / 1000000
            + (arrived - sent) / 1000000
            + (now - arrived) / 1000000)
expected_position h v sent arrived now d =
    rw
      (
        followed h v sent arrived now d,
        snapshot_position h sent d.playing d.settled d.sampled (omega arith) d.floor,
        d.delay,
        milliseconds-since arrived sent d.later,
        milliseconds-since now arrived d.last,
        sum_pos,
      )
      (int64_in_range _ (add-InInt64 h.pos_ms _ (omega arith) d.floor))

-- A Viewer that receives the state of a playing, settled Host after exactly its estimated one-way
-- delay extrapolates the Host's position from then on to within the rounding: the expected
-- position is at most 2 ms behind, and never ahead of, what the Host itself would report at that
-- time, if the Host is left alone meanwhile.
pub expected-snapshot :
    (h : Host) (v : Viewer) (sent arrived now : Time)
    → Delivered h v sent arrived now
    → let e = expected_host_pos (on_state v (snapshot h sent) arrived) now in
      let p = (snapshot h now).position_ms in (e ≤ℤ p) × (p ≤ℤ e +ℤ pos 2)
expected-snapshot h v sent arrived now d =
    rw
      (
        expected_position h v sent arrived now d,
        snapshot_position h now d.playing d.settled (omega arith) d.room d.floor,
      )
      (omega int_laws)

-- An input of a seek and the heartbeat after it, with its arrival at a Viewer.
pub record Scrub : Type 0 where
  pub target : ℤ
  pub input_at : Time
  pub sent_at : Time
  pub arrives_at : Time

-- The heartbeat comes before the seek settles.
abbrev pub IsEarly : Host → Scrub → Type 0
IsEarly h b = since b.sent_at b.input_at <ℤ h.cfg.seek_debounce

-- The states of the heartbeats of a scrub; `Tick` commits a seek that has settled.
abbrev pub held_states : Host → List Scrub → List (State × Time)
held_states h [] = []
held_states h (b ∷ bs) =
    let t = tick (on_seek h b.target b.input_at) b.sent_at in
    (t.1, b.arrives_at) ∷ held_states t.0 bs

tick_early :
    (h : Host) (b : Scrub)
    → IsEarly h b
    → let k = on_seek h b.target b.input_at in tick k b.sent_at ≡ (k, snapshot k b.sent_at, false)
unfolding tick commit on_seek
tick_early h b e = ground arith

held-paused :
    (h : Host) (bs : List Scrub)
    → All (IsEarly h) bs
    → All (λ (e : State × Time). e.0.playing ≡ false) (held_states h bs)
unfolding snapshot on_seek
held-paused h [] e = tt
held-paused h (b ∷ bs) e =
    subst
      (λ (t : Host × State × Bool).
        All (λ (x : State × Time). x.0.playing ≡ false) ((t.1, b.arrives_at) ∷ held_states t.0 bs))
      (sym (tick_early h b e.0)) (refl, held-paused (on_seek h b.target b.input_at) bs e.1)

held-ignored :
    (h : Host) (v : Viewer) (bs : List Scrub)
    → All (IsEarly h) bs
    → v.have_state ≡ true
    → v.last.seq ≡ h.seq
    → on_states v (held_states h bs) ≡ v
unfolding on_states snapshot on_seek
held-ignored h v [] early e same = refl
held-ignored h v (b ∷ bs) early e same =
    subst (λ (t : Host × State × Bool). on_states v ((t.1, b.arrives_at) ∷ held_states t.0 bs) ≡ v)
      (sym (tick_early h b early.0))
      (ap (λ w. on_states w (held_states (on_seek h b.target b.input_at) bs))
          (on_state_same_seq v (snapshot (on_seek h b.target b.input_at) b.sent_at) b.arrives_at e
            (sym same))
        ∙ held-ignored (on_seek h b.target b.input_at) v bs early.1 e same)

followed_state :
    (v : Viewer) (s : State) (now : Time)
    → (v.have_state ≡ true → v.last.seq < s.seq)
    → on_state v s now ≡ record v { last = s; recv_at = now; have_state = true }
unfolding on_state
followed_state v s now fresh = ground (arith, fresh)

-- A Viewer does not hear that its Host scrubs. The Host plays, and a Viewer takes its report, newer
-- than what it followed before. Then the Host scrubs, with any number of inputs, and its heartbeat after
-- each of them, before the seek has settled, reports that it is paused, to hold its Viewers. After all of
-- these heartbeats the Viewer still tells its player to play, and whatever it would have told it without
-- them, at every time and for every player.
pub hold_dropped :
    (h : Host) (v : Viewer) (sent arrived : Time) (bs : List Scrub) (p : ℤ) (player : Bool)
    (now : Time)
    → h.playing ≡ true
    → h.scrubbing ≡ false
    → (v.have_state ≡ true → v.last.seq < h.seq)
    → All (IsEarly h) bs
    → let w = on_state v (snapshot h sent) arrived in
      let reports = held_states h bs in
      All (λ (e : State × Time). e.0.playing ≡ false) reports
      × ((decide (on_states w reports) p player now).play ≡ true)
      × (decide (on_states w reports) p player now ≡ decide w p player now)
unfolding snapshot decide correct
hold_dropped h v sent arrived bs p player now playing settled fresh early =
    let s = snapshot h sent in
    let e = followed_state v s arrived (λ k. ground (arith, fresh)) in
    rw e (
      let i =
        held-ignored h (record v { last = s; recv_at = arrived; have_state = true }) bs early refl
          (ground arith) in
      rw i (held-paused h bs early, ground arith, refl))
