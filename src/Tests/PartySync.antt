-- ===== src/Tests/PartySync.antt =====
-- internal/party/host_test.go and viewer_test.go, and the theorems on the sync engines at inputs.
use p2p_hls.Prelude.{
  ℕ, ◌*◌, ◌+◌, ◌≡◌, refl, true, false, pos, ◌≤ℤ◌, ◌+ℤ◌, ◌-ℤ◌, ◌*ℤ◌, int64, low_bits, quot, List, [],
  ◌∷◌, bytes, lookup, insert, delete, str_beq, string_eq, All, arith,
}
use p2p_hls.Party.Types.{Time, State, default_config, clamp}
use p2p_hls.Party.Host.{
  Host, Event, plays, reports, seeks, ticks, joins, new_host, on_play, on_seek, snapshot, tick,
  commit, run, step, viewer_count,
}
use p2p_hls.Party.Host.Audience.{membership}
use p2p_hls.Party.Host.Commits.{changes, count_changes, run-seq, scrubbed, tick-scrub}
use p2p_hls.Party.Viewer.{
  Viewer, new_viewer, on_state, on_states, decide, expected_host_pos, correct, abs64, on_rtt,
  one_way_delay,
}
use p2p_hls.Party.Viewer.States.{Leads, on_states-Leads}
use p2p_hls.Party.Viewer.Actions.{IsSane, IsCorrection, decide-IsCorrection}
use p2p_hls.Party.Sync.{Delivered, expected-snapshot, Scrub, held_states, hold_dropped}

-- The engines' definitions, for tests by computation.
program : Unit {0}
unfolding new_host on_play on_seek snapshot tick commit run step viewer_count membership changes
    count_changes scrubbed new_viewer on_state on_states decide expected_host_pos correct abs64
    on_rtt one_way_delay int64 low_bits quot ◌+ℤ◌ ◌-ℤ◌ ◌*ℤ◌ clamp lookup insert delete str_beq
    default_config
program = tt

abbrev second : ℕ
second = 1000000000

abbrev host : Host
unfolding program
host = new_host second default_config (bytes "h:c") (bytes "c")

abbrev playing_host : Host
unfolding program
playing_host = on_play host (pos 5000) second

-- TestHostSnapshotInterpolatesWhilePlaying
interpolates : (snapshot playing_host (second * 3)).position_ms ≡ pos 7000
unfolding program
interpolates = refl

abbrev viewer : Viewer
unfolding program
viewer = on_rtt (new_viewer default_config) (pos 200000000)

abbrev following : Viewer
unfolding program
following = on_state viewer (snapshot playing_host second) second

-- TestViewerSeeksWhenDriftExceedsThreshold: 3 s behind.
seeks_far : (decide following (pos 2000) true second).seek ≡ true
unfolding program
seeks_far = refl

-- TestViewerNudgesRateForSmallDrift: 500 ms ahead of 5100.
nudges : (decide following (pos 5600) true second).rate ≡ pos 920000
unfolding program
nudges = refl

abbrev history : List (Time × Event)
history =
    (2000000000, plays (pos 10))
    ∷ (2000000001, joins (bytes "v") (bytes "Vi"))
    ∷ (2100000000, seeks (pos 20))
    ∷ (2200000000, reports (pos 21))
    ∷ (2300000000, ticks)
    ∷ []

run-seq_example : (run host history).seq ≡ 0 + count_changes host history
unfolding program
run-seq_example = run-seq host history (omega arith)

abbrev scrub : List (Time × Event)
scrub =
    (1050000000, seeks (pos 40))
    ∷ (1100000000, ticks)
    ∷ (1150000000, joins (bytes "v") (bytes "Vi"))
    ∷ []

tick-scrub_example :
    (tick (run (on_seek playing_host (pos 30) second) scrub) 1300000000).0.pos_ms ≡ pos 40
unfolding program
tick-scrub_example =
    (tick-scrub playing_host second (pos 30) scrub 1050000000 (pos 40) 1300000000 refl
      (omega arith)).3

sane : IsSane default_config
unfolding program
sane = record {
  slow = omega arith;
  fast = omega arith;
  gain = omega arith;
  threshold = omega arith;
  deadband = omega arith;
  cap = omega arith;
}

decide-IsCorrection_example :
    IsCorrection default_config true (pos 5100) (pos 500) (decide following (pos 5600) true second)
unfolding program
decide-IsCorrection_example =
    decide-IsCorrection following (pos 5600) true second sane refl (omega arith) (λ e. cc)

delivered : Delivered playing_host viewer 2000000000 2100000000 9000000000
unfolding program
delivered = record {
  playing = refl;
  settled = refl;
  sampled = omega arith;
  later = omega arith;
  last = omega arith;
  delay = refl;
  fresh = λ e. cc;
  room = omega arith;
  floor = omega arith;
}

expected-snapshot_example :
    (expected_host_pos (on_state viewer (snapshot playing_host 2000000000) 2100000000) 9000000000
      ≤ℤ (snapshot playing_host 9000000000).position_ms)
    × ((snapshot playing_host 9000000000).position_ms
        ≤ℤ expected_host_pos
            (on_state viewer (snapshot playing_host 2000000000) 2100000000)
            9000000000
          +ℤ pos 2)
expected-snapshot_example =
    expected-snapshot playing_host viewer 2000000000 2100000000 9000000000 delivered

abbrev scrubbing : List Scrub
scrubbing =
    record {
      target = pos 60000;
      input_at = 2200000000;
      sent_at = 2300000000;
      arrives_at = 2350000000;
    }
    ∷ record {
      target = pos 61000;
      input_at = 2400000000;
      sent_at = 2500000000;
      arrives_at = 2900000000;
    }
    ∷ []

hold_dropped_example :
    let w = on_state viewer (snapshot playing_host 2000000000) 2100000000 in
    let reports = held_states playing_host scrubbing in
    All (λ (e : State × Time). e.0.playing ≡ false) reports
    × ((decide (on_states w reports) (pos 7000) true 3000000000).play ≡ true)
    × (decide (on_states w reports) (pos 7000) true 3000000000
        ≡ decide w (pos 7000) true 3000000000)
unfolding program
hold_dropped_example =
    hold_dropped playing_host viewer 2000000000 2100000000 scrubbing (pos 7000) true 3000000000 refl
      refl (λ e. absurd (cc e)) (omega arith, (omega arith, tt))

-- Two heartbeats of a playing host under one sequence number, and one after a second play.
abbrev heartbeats : List (State × Time)
unfolding program
heartbeats =
    (snapshot playing_host 1500000000, 1600000000)
    ∷ (snapshot (on_play playing_host (pos 7) 3000000000) 3000000000, 3100000000)
    ∷ (snapshot playing_host 2000000000, 3200000000)
    ∷ (snapshot (on_play playing_host (pos 7) 3000000000) 3500000000, 3600000000)
    ∷ []

-- The first report of the second play stays.
first_report : (on_states (new_viewer default_config) heartbeats).last.position_ms ≡ pos 7
unfolding program
first_report = refl

on_states-Leads_example :
    Leads
      (on_states (new_viewer default_config) ((snapshot playing_host second, second) ∷ heartbeats))
      ((snapshot playing_host second, second) ∷ heartbeats)
on_states-Leads_example =
    on_states-Leads default_config (snapshot playing_host second) second heartbeats
