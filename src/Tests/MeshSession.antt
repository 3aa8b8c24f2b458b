-- ===== src/Tests/MeshSession.antt =====
-- internal/app/swarm_session_test.go, and the theorems on the mesh session at inputs.
use p2p_hls.Prelude.{
  ◌≤◌, ◌≡◌, ◌≢◌, refl, true, pos, negsuc, ◌-ℤ◌, ◌+ℤ◌, int64, low_bits, GoString, bytes, has_prefix,
  has_suffix, trim_prefix, trim_suffix, skip, split, split_from, digits_value, List, [], ◌∷◌,
  lookup, insert, some, none, int_eq, string_eq, str_beq, arith, has,
}
use p2p_hls.Swarm.Engine.{new, default_config}
use p2p_hls.Swarm.Haves.{set_have, have_segment, retain}
use p2p_hls.Swarm.Peers.{set_peers, on_peer_have}
use p2p_hls.Swarm.Integrity.{
  atoi, sign_and_digits, signed_int, seg_index, trim_line, trim_blanks, is_blank, is_segment_line,
  parse_lines, parse_hashes, hex_digit, hex_decode, verify_segment,
}
use p2p_hls.Session.{
  Session, Data, new_session, store, store_put, store_mark, store_trim, cache_put, cache_get,
  cache_retain, window_low, window_high, seed_for, seed_word, busy, swarm_segment,
}
use p2p_hls.Session.Fetch.{
  World, lacks, fetched, fetch_segment, fetch_checked, expected_hash, from_host, found, unfinished,
}
use p2p_hls.Session.Stores.{
  Stores, StoreEvent, moves_to, puts, marks, trims, stores_run, stores_step, stores_run-advertised,
}
use p2p_hls.Session.Verified.{fetch_segment-verified}
use p2p_hls.Session.Rounds.{Calm, fetch_segment-ends}
use p2p_hls.Session.Uploads.{Upload, upload, asks, ends, uploads_run, uploads_run-bound}

program : Unit {0}
unfolding new default_config set_have have_segment retain atoi sign_and_digits signed_int seg_index
    trim_line trim_blanks is_blank is_segment_line parse_lines parse_hashes hex_digit hex_decode
    verify_segment new_session cache_put cache_get cache_retain window_low window_high fetch_segment
    fetch_checked expected_hash from_host has_prefix has_suffix trim_prefix trim_suffix skip split
    split_from digits_value lookup insert str_beq int64 low_bits ◌-ℤ◌ ◌+ℤ◌ has
program = tt

-- TestSegIndex
indexes : seg_index (bytes "seg00042.ts") ≡ some (pos 42)
unfolding program
indexes = refl

-- A sign is taken for part of the number.
negative_index : seg_index (bytes "seg-7.ts") ≡ some (negsuc 6)
unfolding program
negative_index = refl

abbrev playlist : GoString
playlist = bytes "#EXTM3U\n#EXT-X-P2P-HASH:0102\nseg00003.ts\nseg00004.ts\n"

-- TestParseHashes: a tag applies to the next Segment only.
parses : parse_hashes playlist ≡ (bytes "seg00003.ts", bytes "0102") ∷ []
unfolding program
parses = refl

abbrev session : Session
unfolding program
session = record (new_session (bytes "n:b") (bytes "n:h") (bytes "c") default_config) {
  hashes = (bytes "seg00003.ts", bytes "0102") ∷ [];
}

-- A world in which the peers have nothing, the Host has the Segment, and the hash of bytes is the
-- bytes themselves.
abbrev world : World
world = record {
  selects_at = λ i. 1000;
  marks_at = λ i. 1000;
  answer = λ i src name. lacks;
  meanwhile = λ i s. s;
  after_put = λ s. s;
  after_mark = λ s. s;
  host_segment = some (1 ∷ 2 ∷ []);
  host_playlist = none;
  sum256 = λ b. b;
}

-- Without a peer the bytes come from the Host.
fetches : (fetch_segment world 1 (bytes "seg00003.ts") session).0 ≡ found (1 ∷ 2 ∷ [])
unfolding program p2p_hls.Session.Fetch.pull p2p_hls.Session.Fetch.round
    p2p_hls.Swarm.Select.select_source p2p_hls.Swarm.Select.select_from
fetches = refl

fetch_segment-verified_example : verify_segment world.sum256 (1 ∷ 2 ∷ []) (bytes "0102") ≡ true
unfolding program
fetch_segment-verified_example =
    fetch_segment-verified world 1 (bytes "seg00003.ts") (bytes "0102") (pos 3) session (1 ∷ 2 ∷ [])
      refl refl refl (λ e. cc) fetches

-- A session whose engine knows that n:a has the Segments 3 and 4; the pull from it fails.
abbrev peered : Session
unfolding program
peered = record session {
  eng = on_peer_have (set_peers session.eng (bytes "n:a" ∷ [])) (bytes "n:a") 3 (3 ∷ []) 1 900;
}

calm : Calm world 900 2000000000
calm = record { alone = λ i t. refl; before = λ i. omega arith; after_start = λ i. omega arith }

-- It is asked for the Segment and demoted, and then the Host is.
fetch_segment-ends_example : (fetch_segment world 2 (bytes "seg00003.ts") peered).0 ≢ unfinished
unfolding program on_peer_have set_peers p2p_hls.Swarm.Peers.admit p2p_hls.Swarm.Peers.wanted
fetch_segment-ends_example =
    fetch_segment-ends world 2 (bytes "seg00003.ts") peered 900 ((λ h. h), tt) calm (omega arith)

abbrev caching : Session
unfolding program store store_put store_mark store_trim
caching = store (λ s. s) (λ s. s) session (pos 3) (9 ∷ [])

abbrev uploads : List Upload
uploads = asks (bytes "seg00003.ts") ∷ asks (bytes "seg00003.ts") ∷ ends ∷ asks (bytes "x") ∷ []

serves_one : (uploads_run (caching, 0) uploads).1 ≡ 1
unfolding program uploads_run swarm_segment upload caching
serves_one = refl

uploads_run-bound_example :
    ((uploads_run (caching, 0) uploads).1 ≤ caching.cfg.upload_cap)
    × ((uploads_run (caching, 0) uploads).0.uploads ≡ (uploads_run (caching, 0) uploads).1)
unfolding program store store_put store_mark store_trim
uploads_run-bound_example = uploads_run-bound caching uploads refl

-- Two stores at once: the window moves on between them, and the bounds of the first come too late.
abbrev overlapping : List StoreEvent
overlapping =
    puts (pos 3) (9 ∷ [])
    ∷ marks 0
    ∷ moves_to (pos 5000)
    ∷ puts (pos 5000) (8 ∷ [])
    ∷ marks 0
    ∷ trims 1
    ∷ trims 0
    ∷ []

abbrev overlapped : Stores
overlapped = stores_run record { session = session; marking = []; trimming = [] } overlapping

-- The second one's Segment is advertised then, but its bytes are gone.
bytes_gone :
    (have_segment overlapped.session.eng (pos 5000) ≡ true)
    × (lookup (pos 5000) overlapped.session.cache ≡ none)
unfolding program stores_run stores_step store_put store_mark store_trim
bytes_gone = (refl, refl)

-- One after the other.
abbrev in_turn : List StoreEvent
in_turn =
    puts (pos 3) (9 ∷ [])
    ∷ moves_to (pos 4)
    ∷ puts (pos 4) (8 ∷ [])
    ∷ marks 1
    ∷ marks 0
    ∷ trims 1
    ∷ trims 0
    ∷ []

stores_run-advertised_example :
    have_segment
      (stores_run record { session = session; marking = []; trimming = [] } in_turn).session.eng
      (pos 3)
    ≡ true
unfolding program stores_run stores_step store_put store_mark store_trim
stores_run-advertised_example =
    stores_run-advertised session in_turn (pos 3) (9 ∷ []) (λ i b e. absurd (cc e)) refl refl refl
