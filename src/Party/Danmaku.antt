-- ===== src/Party/Danmaku.antt =====
-- internal/party/danmaku.go: the text cap and the per-sender token bucket.
-- A text is its list of runes (invalid UTF-8 is not modelled). Tokens (float64 in Go) are counted
-- in billionths, so that a refill of whole tokens per second adds whole units per nanosecond.
pub mod Cap
pub mod Gate
use p2p_hls.Prelude.{
  ℕ, ◌+◌, ◌-◌, ◌*◌, Bool, true, false, ◌||◌, ◌&&◌, ltb, leb, eqb, if◌then◌else◌, List, [], ◌∷◌,
  ◌++◌, length, Option, none, some, Map, lookup, insert, string_eq,
}
use mathlib.Core.List.{reverse}
use p2p_hls.Party.Types.{NodeId, Time, Config}

abbrev pub max_danmaku_len : ℕ
max_danmaku_len = 100

abbrev pub Runes : Type 0
Runes = List ℕ

-- `unicode.IsSpace`
unfoldable pub is_space : ℕ → Bool
is_space c =
    (leb 9 c && leb c 13)
    || eqb c 32
    || eqb c 0x85
    || eqb c 0xa0
    || eqb c 0x1680
    || (leb 0x2000 c && leb c 0x200a)
    || eqb c 0x2028
    || eqb c 0x2029
    || eqb c 0x202f
    || eqb c 0x205f
    || eqb c 0x3000

unfoldable pub trim_left : Runes → Runes
trim_left [] = []
trim_left (c ∷ s) = if is_space c then trim_left s else c ∷ s

-- `strings.TrimSpace`
unfoldable pub trim_space : Runes → Runes
unfolding trim_left
trim_space s = reverse (trim_left (reverse (trim_left s)))

-- The loop of `CapText` over the grapheme clusters that are left, at `runes` runes written.
unfoldable pub take_clusters : ℕ → List Runes → Runes
take_clusters runes [] = []
take_clusters runes (g ∷ gs) =
    if ltb max_danmaku_len (runes + length g) then [] else g ++ take_clusters (runes + length g) gs

-- `graphemes` is github.com/rivo/uniseg's segmentation of a text into grapheme clusters.
unfoldable pub cap_text : (Runes → List Runes) → Runes → Runes
cap_text graphemes s =
    let t = trim_space s in
    if leb (length t) max_danmaku_len then t else trim_space (take_clusters 0 (graphemes t))

pub record TokenBucket : Type 0 where
  pub tokens : ℕ
  pub last : Time

pub record DanmakuGate : Type 0 where
  pub burst : ℕ
  pub refill : ℕ
  pub state : Map NodeId TokenBucket

-- One token.
abbrev pub token : ℕ
token = 1000000000

unfoldable pub new_danmaku_gate : Config → DanmakuGate
new_danmaku_gate cfg = record {
  burst = cfg.danmaku_burst * token;
  refill = cfg.danmaku_refill_per_sec;
  state = [];
}

-- The sender's bucket, a full one for a new sender.
unfoldable pub bucket_of : DanmakuGate → NodeId → Time → TokenBucket
bucket_of g sender now = elim (lookup sender g.state) [
  | none ↦ record { tokens = g.burst; last = now }
  | some b ↦ b
]

unfoldable pub refilled : DanmakuGate → TokenBucket → Time → TokenBucket
refilled g b now =
    if ltb b.last now
    then (let tokens = b.tokens + (now - b.last) * g.refill in
        record { tokens = if ltb g.burst tokens then g.burst else tokens; last = now })
    else b

unfoldable pub allow : DanmakuGate → NodeId → Time → DanmakuGate × Bool
allow g sender now =
    let b = refilled g (bucket_of g sender now) now in
    if leb token b.tokens
    then (record g { state = insert sender (record b { tokens = b.tokens - token }) g.state }, true)
    else (record g { state = insert sender b g.state }, false)
