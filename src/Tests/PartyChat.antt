-- ===== src/Tests/PartyChat.antt =====
-- internal/party/danmaku_test.go, and the theorems on the Danmaku rules at inputs.
use p2p_hls.Prelude.{
  ℕ, zero, suc, length, ◌+◌, ◌-◌, ◌*◌, ◌≤◌, ◌≡◌, refl, true, false, List, [], ◌∷◌, take, bytes,
  lookup, insert, string_eq, str_beq, arith,
}
use mathlib.Core.List.{flatten}
use p2p_hls.Party.Types.{Time, default_config, NodeId}
use p2p_hls.Party.Danmaku.{
  Runes, is_space, trim_left, trim_space, take_clusters, cap_text, DanmakuGate, new_danmaku_gate,
  bucket_of, refilled, allow, token,
}
use p2p_hls.Party.Danmaku.Gate.{granted, granted_bound, allow_after_wait, answers}
use p2p_hls.Party.Danmaku.Cap.{cap_text_clusters}

program : Unit {0}
unfolding new_danmaku_gate bucket_of refilled allow lookup insert str_beq default_config granted
    answers trim_left trim_space is_space take_clusters cap_text
program = tt

-- One rune per cluster.
abbrev single : Runes → List Runes
single [] = []
single (c ∷ s) = (c ∷ []) ∷ single s

flatten-single : (t : Runes) → flatten (single t) ≡ t
unfolding flatten
flatten-single [] = refl
flatten-single (c ∷ t) = ground (arith, flatten-single t)

abbrev spaced : Runes
spaced = 32 ∷ 104 ∷ 105 ∷ 10 ∷ []

caps : cap_text single spaced ≡ 104 ∷ 105 ∷ []
unfolding program
caps = refl

abbrev letters : ℕ → Runes
letters zero = []
letters (suc n) = 104 ∷ letters n

-- A text of 120 letters after a blank.
abbrev long : Runes
long = 32 ∷ letters 120

cuts : length (cap_text single long) ≡ 100
unfolding program
cuts = refl

cap_text_clusters_example :
    (k : ℕ) × (cap_text single long ≡ trim_space (flatten (take k (single (trim_space long)))))
cap_text_clusters_example = cap_text_clusters single long flatten-single

abbrev gate : DanmakuGate
unfolding program
gate = new_danmaku_gate default_config

abbrev sends : List (NodeId × Time)
sends =
    (bytes "v", 1000000000)
    ∷ (bytes "w", 1100000000)
    ∷ (bytes "v", 1200000000)
    ∷ (bytes "v", 1100000000)
    ∷ []

-- The first part of TestDanmakuGateBurstThenThrottleThenRefill.
burst :
    answers
      (bytes "v")
      gate
      ((bytes "v", 1) ∷ (bytes "v", 1) ∷ (bytes "v", 1) ∷ (bytes "v", 1) ∷ [])
    ≡ true ∷ true ∷ true ∷ false ∷ []
unfolding program
burst = refl

granted_bound_example :
    granted (bytes "v") (new_danmaku_gate default_config) sends * token
    ≤ default_config.danmaku_burst * token
      + (1300000000 - 1000000000) * default_config.danmaku_refill_per_sec
granted_bound_example = granted_bound default_config (bytes "v") 1000000000 1300000000 sends (
  (omega arith, omega arith),
  ((omega arith, omega arith), ((omega arith, omega arith), ((omega arith, omega arith), tt))),
)

abbrev drained : DanmakuGate
unfolding program
drained = record gate { state = (bytes "v", record { tokens = 5; last = 1000000000 }) ∷ [] }

allow_after_wait_example : (allow drained (bytes "v") 2000000000).1 ≡ true
unfolding program
allow_after_wait_example =
    allow_after_wait drained (bytes "v") (record { tokens = 5; last = 1000000000 }) 2000000000 refl
      (omega arith) (omega arith) (omega arith)
