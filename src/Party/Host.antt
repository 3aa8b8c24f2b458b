-- ===== src/Party/Host.antt =====
-- internal/party/host.go: the authoritative sync engine. Each method runs under the engine's
-- mutex, so it is a function on the state; the clock's reading is an argument.
pub mod Audience
pub mod Commits
use p2p_hls.Prelude.{
  ℕ, ◌+◌, ◌%◌, GoString, Bool, true, false, ◌&&◌, if◌then◌else◌, ℤ, pos, ◌+ℤ◌, leb_ℤ, int64, List,
  [], ◌∷◌, map, Option, none, some, length, Map, lookup, insert, delete, string_eq,
}
use p2p_hls.Party.Types.{NodeId, Time, since, milliseconds, Config, State, Member, unit_rate}

pub record Host : Type 0 where
  pub cfg : Config
  pub party_id : GoString
  pub content_id : GoString
  pub playing : Bool
  pub pos_ms : ℤ
  pub sampled_at : Time
  pub rate : ℤ
  pub seq : ℕ
  pub scrubbing : Bool
  pub pending_seek_ms : ℤ
  pub last_seek_input : Time
  pub audience : Map NodeId GoString

unfoldable pub new_host : Time → Config → GoString → GoString → Host
new_host now cfg party_id content_id = record {
  cfg = cfg;
  party_id = party_id;
  content_id = content_id;
  playing = false;
  pos_ms = pos 0;
  sampled_at = now;
  rate = unit_rate;
  seq = 0;
  scrubbing = false;
  pending_seek_ms = pos 0;
  last_seek_input = 0;
  audience = [];
}

-- `seq++` on a uint64
abbrev pub next_seq : ℕ → ℕ
next_seq n = (n + 1) % 18446744073709551616

unfoldable pub on_play : Host → ℤ → Time → Host
on_play h position now = record h {
  playing = true;
  pos_ms = position;
  sampled_at = now;
  scrubbing = false;
  seq = next_seq h.seq;
}

unfoldable pub on_pause : Host → ℤ → Time → Host
on_pause h position now = record h {
  playing = false;
  pos_ms = position;
  sampled_at = now;
  scrubbing = false;
  seq = next_seq h.seq;
}

unfoldable pub on_report : Host → ℤ → Time → Host
on_report h position now =
    if h.scrubbing then h else record h { pos_ms = position; sampled_at = now }

unfoldable pub on_seek : Host → ℤ → Time → Host
on_seek h position now = record h {
  scrubbing = true;
  pending_seek_ms = position;
  last_seek_input = now;
}

unfoldable pub snapshot : Host → Time → State
snapshot h now =
    if h.scrubbing
    then record {
      party_id = h.party_id;
      playing = false;
      position_ms = h.pending_seek_ms;
      rate = h.rate;
      seq = h.seq;
    }
    else record {
      party_id = h.party_id;
      playing = h.playing;
      position_ms =
          if h.playing then int64 (h.pos_ms +ℤ milliseconds (since now h.sampled_at)) else h.pos_ms;
      rate = h.rate;
      seq = h.seq;
    }

-- The committing half of `Tick`: whether a settled seek was committed, and the host after it.
unfoldable pub commit : Host → Time → Host × Bool
commit h now =
    if h.scrubbing && leb_ℤ h.cfg.seek_debounce (since now h.last_seek_input)
    then (
      record h {
        pos_ms = h.pending_seek_ms;
        sampled_at = now;
        scrubbing = false;
        seq = next_seq h.seq;
      },
      true,
    )
    else (h, false)

unfoldable pub tick : Host → Time → Host × State × Bool
unfolding commit
tick h now = let (h', committed) = commit h now in (h', snapshot h' now, committed)

unfoldable pub join : Host → NodeId → GoString → Host
join h node name = record h { audience = insert node name h.audience }

unfoldable pub leave : Host → NodeId → Host
leave h node = record h { audience = delete node h.audience }

unfoldable pub members : Host → List Member
members h = map (λ e. record { node_id = e.0; display_name = e.1 }) h.audience

-- The name and `true`, or the empty name and `false`.
unfoldable pub member : Host → NodeId → GoString × Bool
member h node = elim (lookup node h.audience) [ none ↦ ([], false) | some name ↦ (name, true) ]

unfoldable pub viewer_count : Host → ℕ
viewer_count h = length h.audience

-- What can happen to a host, and the host after a history.
pub data Event : Type 0 where
  plays pauses reports seeks : ℤ → Event
  ticks : Event
  joins : NodeId → GoString → Event
  leaves : NodeId → Event

unfoldable pub step : Host → Time × Event → Host
unfolding on_play on_pause on_report on_seek tick join leave
step h (now, plays p) = on_play h p now
step h (now, pauses p) = on_pause h p now
step h (now, reports p) = on_report h p now
step h (now, seeks p) = on_seek h p now
step h (now, ticks) = (tick h now).0
step h (now, joins n name) = join h n name
step h (now, leaves n) = leave h n

unfoldable pub run : Host → List (Time × Event) → Host
run h [] = h
run h (e ∷ es) = run (step h e) es
