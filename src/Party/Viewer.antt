-- ===== src/Party/Viewer.antt =====
-- internal/party/viewer.go: a follower's engine. Each method runs under the engine's mutex.
-- Positions are int64 and wrap; rates are counted in millionths.
pub mod States
pub mod Actions
use p2p_hls.Prelude.{
  ℕ, ◌*◌, Bool, true, false, ◌&&◌, if◌then◌else◌, ℤ, pos, ◌+ℤ◌, ◌-ℤ◌, ◌*ℤ◌, leb_ℤ, ltb_ℤ, leb,
  int64, quot, List, [], ◌∷◌,
}
use p2p_hls.Party.Types.{Time, since, milliseconds, Config, State, Action, unit_rate, clamp}

pub record Viewer : Type 0 where
  pub cfg : Config
  pub have_state : Bool
  pub last : State
  pub recv_at : Time
  pub owd_ms : ℤ

-- The zero value of `State`.
abbrev pub no_state : State
no_state = record { party_id = []; playing = false; position_ms = pos 0; rate = pos 0; seq = 0 }

unfoldable pub new_viewer : Config → Viewer
new_viewer cfg = record {
  cfg = cfg;
  have_state = false;
  last = no_state;
  recv_at = 0;
  owd_ms = pos 0;
}

unfoldable pub on_state : Viewer → State → Time → Viewer
on_state v s now =
    if v.have_state && leb s.seq v.last.seq
    then v
    else record v { last = s; recv_at = now; have_state = true }

-- The states that arrive one after the other.
unfoldable pub on_states : Viewer → List (State × Time) → Viewer
on_states v [] = v
on_states v ((s, now) ∷ r) = on_states (on_state v s now) r

-- The one-way-delay estimate for a round trip of `rtt`: half of it, within 0 and the cap. The
-- second test overrides the first.
unfoldable pub one_way_delay : Config → ℤ → ℤ
one_way_delay cfg rtt =
    let half = quot (milliseconds rtt) 2 in
    let capped = if ltb_ℤ cfg.max_owd_ms half then cfg.max_owd_ms else half in
    if ltb_ℤ capped (pos 0) then pos 0 else capped

unfoldable pub on_rtt : Viewer → ℤ → Viewer
unfolding one_way_delay
on_rtt v rtt = record v { owd_ms = one_way_delay v.cfg rtt }

unfoldable pub expected_host_pos : Viewer → Time → ℤ
expected_host_pos v now =
    if v.last.playing
    then int64 (v.last.position_ms +ℤ v.owd_ms +ℤ milliseconds (since now v.recv_at))
    else v.last.position_ms

-- 1.0 - Kp * drift / 1000, in millionths.
abbrev pub nudged : Config → ℤ → ℤ
nudged cfg drift = unit_rate -ℤ cfg.kp *ℤ drift

-- `abs := drift; if abs < 0 { abs = -abs }`
unfoldable pub abs64 : ℤ → ℤ
abs64 drift = if ltb_ℤ drift (pos 0) then int64 (pos 0 -ℤ drift) else drift

-- The three cases of `Decide`, for the extrapolated host position and the drift from it.
unfoldable pub correct : Config → Bool → ℤ → ℤ → Action
correct cfg playing h drift =
    if ltb_ℤ cfg.seek_threshold_ms (abs64 drift)
    then record { play = playing; seek = true; seek_ms = h; rate = unit_rate; drift_ms = drift }
    else if ltb_ℤ cfg.deadband_ms (abs64 drift)
    then record {
      play = playing;
      seek = false;
      seek_ms = pos 0;
      rate = clamp (nudged cfg drift) cfg.min_rate cfg.max_rate;
      drift_ms = drift;
    }
    else record {
      play = playing;
      seek = false;
      seek_ms = pos 0;
      rate = unit_rate;
      drift_ms = drift;
    }

unfoldable pub decide : Viewer → ℤ → Bool → Time → Action
decide v player_pos player_playing now =
    if v.have_state
    then (let h = expected_host_pos v now in
        correct v.cfg v.last.playing h (int64 (player_pos -ℤ h)))
    else record {
      play = player_playing;
      seek = false;
      seek_ms = pos 0;
      rate = unit_rate;
      drift_ms = pos 0;
    }
