-- ===== src/Session.antt =====
-- internal/app/swarm_session.go and swarm_cache.go: one node's share in the mesh of a viewed party,
-- around the mesh engine. The mutexes guard single steps on the state; what other goroutines do
-- between the steps of a fetch is an argument of the fetch (Session/Fetch), and Session/Stores has the
-- steps of any number of stores.
pub mod Fetch
pub mod Stores
pub mod Verified
pub mod Rounds
pub mod Uploads
use Prim.Native.Nat.{bit_xor}
use p2p_hls.Prelude.{
  ℕ, ◌+◌, ◌-◌, ◌*◌, ◌%◌, GoString, Bool, true, false, not, if◌then◌else◌, ltb, ℤ, pos, ◌+ℤ◌, ◌-ℤ◌,
  ltb_ℤ, int64, List, [], ◌∷◌, select, Option, none, some, Map, lookup, insert, int_eq, string_eq,
  ◌==◌,
}
use p2p_hls.Party.Types.{NodeId, Time}
use p2p_hls.Swarm.Engine.{Config, Swarm, new}
use p2p_hls.Swarm.Haves.{set_have, retain, outside, have_msg}
use p2p_hls.Swarm.Peers.{set_peers, on_peer_have, expire_stale, on_rtt}
use p2p_hls.Swarm.Select.{gossip_targets}
use p2p_hls.Swarm.Integrity.{seg_index}

abbrev pub Data : Type 0
Data = List ℕ

-- `uploads` is the number of tokens in the semaphore `uploadSem`.
pub record Session : Type 0 where
  pub self : NodeId
  pub host : NodeId
  pub content_id : GoString
  pub party_id : GoString
  pub cfg : Config
  pub eng : Swarm
  pub cache : Map ℤ Data
  pub hashes : Map GoString GoString
  pub last_idx : ℤ
  pub uploads : ℕ

unfoldable pub new_session : NodeId → NodeId → GoString → Config → Session
new_session self host content_id cfg = record {
  self = self;
  host = host;
  content_id = content_id;
  party_id = [];
  cfg = cfg;
  eng = new self cfg;
  cache = [];
  hashes = [];
  last_idx = pos 0;
  uploads = 0;
}

-- The loop of `seedFor`, on the 64-bit word.
unfoldable pub seed_word : ℕ → GoString → ℕ
seed_word h [] = h
seed_word h (b ∷ id) = seed_word (bit_xor h b * 1099511628211 % 18446744073709551616) id

unfoldable pub seed_for : NodeId → ℤ
seed_for id =
    let h = int64 (pos (seed_word 1469598103934665603 id)) in
    if ltb_ℤ h (pos 0) then int64 (pos 0 -ℤ h) else h

unfoldable pub set_party_id : Session → GoString → Session
set_party_id s id = record s { party_id = id }

-- The session after the call, and the peers that it makes sure to be connected to.
unfoldable pub set_session_peers : Session → List NodeId → Session × List NodeId
set_session_peers s members =
    (record s { eng = set_peers s.eng members }, select (λ m. not (m == s.self)) members)

unfoldable pub on_swarm_have : Session → NodeId → ℕ → List ℕ → ℕ → Time → Session
on_swarm_have s remote base bitmap epoch now = record s {
  eng = on_peer_have s.eng remote base bitmap epoch now;
}

-- `segCache.put`, `segCache.get` and `segCache.retain`
unfoldable pub cache_put : ℤ → Data → Map ℤ Data → Map ℤ Data
cache_put idx b c = insert idx b c

unfoldable pub cache_get : ℤ → Map ℤ Data → Option Data
cache_get idx c = lookup idx c

unfoldable pub cache_retain : ℤ → ℤ → Map ℤ Data → Map ℤ Data
cache_retain min max c = select (λ e. not (outside min max e.0)) c

-- The bounds of the window.
unfoldable pub window_low : Session → ℤ
window_low s =
    let lo = int64 (s.last_idx -ℤ pos s.cfg.window_lag) in if ltb_ℤ lo (pos 0) then pos 0 else lo

unfoldable pub window_high : Session → ℤ
window_high s = int64 (s.last_idx +ℤ pos s.cfg.window_lead)

-- The three critical sections of `store`: the bytes go into the cache under the cache's mutex; the
-- engine takes the Segment and drops what is outside the window, under the session's, with the bounds;
-- the cache drops what is outside these bounds, under its own again.
unfoldable pub store_put : Session → ℤ → Data → Session
store_put s idx body = record s { cache = cache_put idx body s.cache }

unfoldable pub store_mark : Session → ℤ → Session × ℤ × ℤ
store_mark s idx =
    let lo = window_low s in
    let hi = window_high s in (record s { eng = (retain (set_have s.eng idx) lo hi).0 }, lo, hi)

unfoldable pub store_trim : ℤ → ℤ → Session → Session
store_trim lo hi s = record s { cache = cache_retain lo hi s.cache }

-- `after_put` and `after_mark` are what other goroutines do to the session between the sections.
unfoldable pub store : (Session → Session) → (Session → Session) → Session → ℤ → Data → Session
store after_put after_mark s idx body =
    let (t, lo, hi) = store_mark (after_put (store_put s idx body)) idx in
    store_trim lo hi (after_mark t)

-- What a peer that asks for a Segment is answered.
pub data Answer : Type 0 where
  not_found : Answer
  busy : Answer
  serves : Data → Answer

unfoldable pub swarm_segment : Session → GoString → Session × Answer
swarm_segment s name = elim (seg_index name) [
  | none ↦ (s, not_found)
  | some idx ↦
      if ltb s.uploads s.cfg.upload_cap
      then (elim (cache_get idx s.cache) [
        | none ↦ (s, not_found)
        | some b ↦ (record s { uploads = s.uploads + 1 }, serves b)
      ])
      else (s, busy)
]

-- The function that `SwarmSegment` returns with the bytes, called when they are sent.
unfoldable pub release : Session → Session
release s = record s { uploads = s.uploads - 1 }

-- The measured round trips of one round of gossip; none where the measurement fails.
unfoldable pub measure_all : (NodeId → Option ℤ) → Swarm → List NodeId → Swarm
measure_all rtt eng [] = eng
measure_all rtt eng (n ∷ ns) =
    measure_all rtt (elim (rtt n) [ none ↦ eng | some d ↦ on_rtt eng n d ]) ns

-- One tick of the gossip loop: the session after it, the targets and the have-map sent to them.
unfoldable pub gossip_round :
    (ℕ → ℕ → ℕ) → (NodeId → Option ℤ) → Session → Time → Session × List NodeId × (ℕ × List ℕ × ℕ)
gossip_round rng rtt s now =
    let eng = expire_stale s.eng now in
    let targets = gossip_targets rng eng in
    (record s { eng = measure_all rtt eng targets }, targets, have_msg eng)
