-- ===== src/Party/Types.antt =====
-- internal/party/party.go: configuration, playback state, actions and members.
-- A time is the number of nanoseconds since Go's zero time, a duration an integer of nanoseconds.
-- Playback rates (float64 in Go) are counted in millionths and the gain `Kp` in thousandths, so
-- that the products of the default configuration are exact.
use p2p_hls.Prelude.{ℕ, GoString, Bool, if◌then◌else◌, ℤ, pos, ltb_ℤ, sub_ℕ, quot}

abbrev pub NodeId : Type 0
NodeId = GoString

abbrev pub Time : Type 0
Time = ℕ

-- `t.Sub(u)`
abbrev pub since : Time → Time → ℤ
since t u = sub_ℕ t u

-- `d.Milliseconds()`
abbrev pub milliseconds : ℤ → ℤ
milliseconds d = quot d 1000000

pub record Config : Type 0 where
  pub heartbeat_interval : ℤ
  pub seek_threshold_ms : ℤ
  pub deadband_ms : ℤ
  pub min_rate : ℤ
  pub max_rate : ℤ
  pub kp : ℤ
  pub max_owd_ms : ℤ
  pub seek_debounce : ℤ
  pub danmaku_burst : ℕ
  pub danmaku_refill_per_sec : ℕ

-- A playback rate of 1.0.
abbrev pub unit_rate : ℤ
unit_rate = pos 1000000

unfoldable pub default_config : Config
default_config = record {
  heartbeat_interval = pos 500000000;
  seek_threshold_ms = pos 1000;
  deadband_ms = pos 80;
  min_rate = pos 920000;
  max_rate = pos 1080000;
  kp = pos 200;
  max_owd_ms = pos 250;
  seek_debounce = pos 175000000;
  danmaku_burst = 3;
  danmaku_refill_per_sec = 1;
}

pub record State : Type 0 where
  pub party_id : GoString
  pub playing : Bool
  pub position_ms : ℤ
  pub rate : ℤ
  pub seq : ℕ

pub record Action : Type 0 where
  pub play : Bool
  pub seek : Bool
  pub seek_ms : ℤ
  pub rate : ℤ
  pub drift_ms : ℤ

pub record Member : Type 0 where
  pub node_id : NodeId
  pub display_name : GoString

unfoldable pub clamp : ℤ → ℤ → ℤ → ℤ
clamp v lo hi = if ltb_ℤ v lo then lo else if ltb_ℤ hi v then hi else v
