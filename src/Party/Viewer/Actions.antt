-- ===== src/Party/Viewer/Actions.antt =====
-- What a Viewer tells its player to do.
use p2p_hls.Prelude.{
  zero, ◌≡◌, ◌≢◌, ◌+◌, ◌-◌, inl, inr, ◌↔◌, Bool, true, ℤ, pos, negsuc, neg_part, ◌-ℤ◌, ◌*ℤ◌, ◌≤ℤ◌,
  ◌<ℤ◌, int64, InInt64, int64_in_range, magnitude, Bool-cases, ◌<◌, suc, arith,
}
use p2p_hls.Party.Types.{Time, Config, Action, unit_rate, clamp}
use p2p_hls.Party.Viewer.{Viewer, on_rtt, expected_host_pos, nudged, correct, decide, abs64}

-- What a configuration must satisfy for the corrections to make sense.
pub record IsSane (cfg : Config) : Type 0 where
  pub slow : cfg.min_rate ≤ℤ unit_rate
  pub fast : unit_rate ≤ℤ cfg.max_rate
  pub gain : pos 0 ≤ℤ cfg.kp
  pub threshold : pos 0 ≤ℤ cfg.seek_threshold_ms
  pub deadband : pos 0 ≤ℤ cfg.deadband_ms
  pub cap : pos 0 ≤ℤ cfg.max_owd_ms

clamp_bounds : (x lo hi : ℤ) → lo ≤ℤ hi → (lo ≤ℤ clamp x lo hi) × (clamp x lo hi ≤ℤ hi)
unfolding clamp
clamp_bounds x lo hi h = ground arith

-- A value on one side of 1.0 is not moved to the other side.
clamp_side :
    (x lo hi : ℤ)
    → lo ≤ℤ unit_rate
    → unit_rate ≤ℤ hi
    → (x ≤ℤ unit_rate → clamp x lo hi ≤ℤ unit_rate) × (unit_rate ≤ℤ x → unit_rate ≤ℤ clamp x lo hi)
unfolding clamp
clamp_side x lo hi h k = ground arith

correct-rate_bounds :
    (cfg : Config) (playing : Bool) (h d : ℤ)
    → IsSane cfg
    → (cfg.min_rate ≤ℤ (correct cfg playing h d).rate)
      × ((correct cfg playing h d).rate ≤ℤ cfg.max_rate)
unfolding correct
correct-rate_bounds cfg playing h d s =
    ground (arith, clamp_bounds (nudged cfg d) cfg.min_rate cfg.max_rate (omega arith))

decide_have_state :
    (v : Viewer) (p : ℤ) (playing : Bool) (now : Time)
    → v.have_state ≡ true
    → decide v p playing now
      ≡ correct v.cfg v.last.playing
          (expected_host_pos v now)
          (int64 (p -ℤ expected_host_pos v now))
unfolding decide
decide_have_state v p playing now e = simp e

-- Whatever state it follows and wherever its player stands, a Viewer never asks for a rate outside
-- the configured bounds, if these hold 1.0 between them.
pub decide-rate_bounds :
    (v : Viewer) (p : ℤ) (playing : Bool) (now : Time)
    → IsSane v.cfg
    → (v.cfg.min_rate ≤ℤ (decide v p playing now).rate)
      × ((decide v p playing now).rate ≤ℤ v.cfg.max_rate)
unfolding decide
decide-rate_bounds v p playing now s = elim (Bool-cases v.have_state) [
  | inl e ↦ rw (decide_have_state v p playing now e) (
      correct-rate_bounds v.cfg v.last.playing (expected_host_pos v now)
        (int64 (p -ℤ expected_host_pos v now)) s)
  | inr e ↦ rw (e, decide) (s.slow, s.fast)
]

gain_side :
    (k d : ℤ)
    → pos 0 ≤ℤ k
    → (pos 0 ≤ℤ d → unit_rate -ℤ k *ℤ d ≤ℤ unit_rate)
      × (d ≤ℤ pos 0 → unit_rate ≤ℤ unit_rate -ℤ k *ℤ d)
unfolding ◌-ℤ◌ ◌*ℤ◌
gain_side (pos k) (pos n) h = ground arith
gain_side (pos k) (negsuc n) h = ground arith
gain_side (negsuc k) d h = absurd (omega arith)

-- Strictly, for a positive gain.
gain_strict :
    (k d : ℤ)
    → pos 0 <ℤ k
    → (pos 0 <ℤ d → unit_rate -ℤ k *ℤ d <ℤ unit_rate)
      × (d <ℤ pos 0 → unit_rate <ℤ unit_rate -ℤ k *ℤ d)
unfolding ◌-ℤ◌ ◌*ℤ◌
gain_strict (pos zero) d h = absurd (omega arith)
gain_strict (pos (suc k)) (pos zero) h = ground arith
gain_strict (pos (suc k)) (pos (suc n)) h = ground arith
gain_strict (pos (suc k)) (negsuc n) h = ground arith
gain_strict (negsuc k) d h = absurd (omega arith)

clamp_strict :
    (x lo hi : ℤ)
    → (lo <ℤ unit_rate → x <ℤ unit_rate → clamp x lo hi <ℤ unit_rate)
      × (unit_rate <ℤ hi → unit_rate <ℤ x → unit_rate <ℤ clamp x lo hi)
unfolding clamp
clamp_strict x lo hi = ground arith

abs64-magnitude : (d : ℤ) → neg_part d < 9223372036854775808 → abs64 d ≡ pos (magnitude d)
unfolding abs64 ◌-ℤ◌
abs64-magnitude (pos n) lt = ground arith
abs64-magnitude (negsuc n) lt = ground (arith, int64_in_range (pos (0 + suc n - 0)))

-- What a correction must be at a drift `d` from the host position `h`.
pub record IsCorrection (cfg : Config) (playing : Bool) (h d : ℤ) (a : Action) : Type 0 where
  pub follows : a.play ≡ playing
  pub reports : a.drift_ms ≡ d
  pub seeks : (a.seek ≡ true) ↔ (cfg.seek_threshold_ms <ℤ pos (magnitude d))
  pub target : a.seek ≡ true → (a.seek_ms ≡ h) × (a.rate ≡ unit_rate)
  pub quiet : pos (magnitude d) ≤ℤ cfg.deadband_ms → a.rate ≡ unit_rate
  pub nudge :
      cfg.deadband_ms <ℤ pos (magnitude d)
      → pos (magnitude d) ≤ℤ cfg.seek_threshold_ms
      → (a.rate ≡ clamp (unit_rate -ℤ cfg.kp *ℤ d) cfg.min_rate cfg.max_rate)
        × (cfg.min_rate <ℤ unit_rate → pos 0 <ℤ cfg.kp → pos 0 <ℤ d → a.rate <ℤ unit_rate)
        × (unit_rate <ℤ cfg.max_rate → pos 0 <ℤ cfg.kp → d <ℤ pos 0 → unit_rate <ℤ a.rate)
  pub slows : pos 0 ≤ℤ d → a.rate ≤ℤ unit_rate
  pub hurries : d ≤ℤ pos 0 → unit_rate ≤ℤ a.rate

correct-IsCorrection :
    (cfg : Config) (playing : Bool) (h d : ℤ)
    → IsSane cfg
    → neg_part d < 9223372036854775808
    → IsCorrection cfg playing h d (correct cfg playing h d)
unfolding correct
correct-IsCorrection cfg playing h d s lt = ground (
  arith,
  abs64-magnitude d lt,
  clamp_side (nudged cfg d) cfg.min_rate cfg.max_rate s.slow s.fast,
  gain_side cfg.kp d s.gain,
  gain_strict cfg.kp d,
  clamp_strict (nudged cfg d) cfg.min_rate cfg.max_rate,
)

not_lowest : (d : ℤ) → InInt64 d → d ≢ negsuc 9223372036854775807 → neg_part d < 9223372036854775808
not_lowest (pos n) r h = ground arith
not_lowest (negsuc n) r h = ground arith

-- The correction of a viewer that has a state, at its drift from the extrapolated host position. It
-- holds for a configuration whose rate bounds have 1.0 between them and whose gain, threshold,
-- deadband and cap are not negative, and for a drift in the range of an int64 other than the lowest,
-- - 2 ^ 63, which Go cannot negate. The viewer plays or pauses with the host and reports the drift; it
-- seeks exactly when the drift is over the threshold, to the host's position at rate 1.0; within the
-- deadband it leaves the rate at 1.0; between the two the rate is 1.0 less the gain's share of the
-- drift, cut to the bounds, and with a positive gain and a bound on that side of 1.0 it is strictly
-- below 1.0 for a viewer that is ahead and strictly above for one that is behind; and a viewer that is
-- ahead is never hurried, one that is behind never slowed down.
pub decide-IsCorrection :
    (v : Viewer) (p : ℤ) (playing : Bool) (now : Time)
    → IsSane v.cfg
    → v.have_state ≡ true
    → let d = p -ℤ expected_host_pos v now in
      InInt64 d
      → d ≢ negsuc 9223372036854775807
      → IsCorrection v.cfg v.last.playing (expected_host_pos v now) d (decide v p playing now)
decide-IsCorrection v p playing now s e r lowest =
    let h = expected_host_pos v now in
    let d = p -ℤ h in
    rw (decide_have_state v p playing now e, int64_in_range d r)
      (correct-IsCorrection v.cfg v.last.playing h d s (not_lowest d r lowest))

-- The one-way-delay estimate is between 0 and the cap, also for a negative round trip.
on_rtt_bounds :
    (v : Viewer) (rtt : ℤ)
    → IsSane v.cfg
    → (pos 0 ≤ℤ (on_rtt v rtt).owd_ms) × ((on_rtt v rtt).owd_ms ≤ℤ v.cfg.max_owd_ms)
unfolding on_rtt
on_rtt_bounds v rtt s = ground arith
