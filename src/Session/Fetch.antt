-- ===== src/Session/Fetch.antt =====
-- `FetchSegment` and `expectedHash` of internal/app/swarm_session.go.
-- The loop over the peers has fuel; Session/Rounds shows how much is enough.
use p2p_hls.Prelude.{
  ℕ, zero, suc, ◌+◌, GoString, true, false, not, ◌&&◌, if◌then◌else◌, ℤ, [], ◌∷◌, Option, none,
  some, Map, lookup, insert, string_eq, int_eq, ◌==◌,
}
use p2p_hls.Party.Types.{NodeId, Time}
use p2p_hls.Swarm.Peers.{demote, mark_busy}
use p2p_hls.Swarm.Select.{select_source}
use p2p_hls.Swarm.Integrity.{seg_index, parse_hashes, verify_segment}
use p2p_hls.Session.{Session, Data, store, cache_get}

-- What a peer's answer to a pull comes to: bytes, `ErrNotFound`, or any other error.
pub data Fetched : Type 0 where
  fetched : Data → Fetched
  lacks : Fetched
  fails : Fetched

-- The world of one fetch, by the number of the round: the clock when a source is selected and when
-- a failure is marked, the answer of a peer, what other goroutines do to the session while the pull is
-- out, and what they do between the critical sections of `store`. The Host's answers are none for an error. `sum256` is BLAKE3-256.
pub record World : Type 0 where
  pub selects_at : ℕ → Time
  pub marks_at : ℕ → Time
  pub answer : ℕ → NodeId → GoString → Fetched
  pub meanwhile : ℕ → Session → Session
  pub after_put : Session → Session
  pub after_mark : Session → Session
  pub host_segment : Option Data
  pub host_playlist : Option GoString
  pub sum256 : Data → Data

-- `FetchSegment`'s result; `unfinished` is a fetch whose fuel ran out.
pub data Result : Type 0 where
  found : Data → Result
  host_fails : Result
  unavailable : Result
  unfinished : Result

-- What a round of the loop leads to: the bytes, the Host, or another round.
pub data Pulled : Type 0 where
  pulled : Data → Session → Pulled
  exhausted : Session → Pulled
  again : Session → Pulled

-- The part of a round after the pull of `idx` from `src` came back.
unfoldable pub settle : World → ℕ → ℤ → GoString → NodeId → Session → Fetched → Pulled
settle w i idx want src s (fetched body) =
    if verify_segment w.sum256 body want
    then pulled body (store w.after_put w.after_mark s idx body)
    else again (record s { eng = demote s.eng src })
settle w i idx want src s lacks = again (record s { eng = demote s.eng src })
settle w i idx want src s fails = again (record s { eng = mark_busy s.eng src (w.marks_at i) })

unfoldable pub round : World → ℕ → ℤ → GoString → GoString → Session → Pulled
round w i idx name want s = elim (select_source s.eng idx (w.selects_at i)) [
  | none ↦ exhausted s
  | some src ↦ settle w i idx want src (w.meanwhile i s) (w.answer i src name)
]

unfoldable pub pull : World → ℕ → ℕ → ℤ → GoString → GoString → Session → Pulled
pull w zero i idx name want s = again s
pull w (suc fuel) i idx name want s = elim (round w i idx name want s) [
  | pulled body t ↦ pulled body t
  | exhausted t ↦ exhausted t
  | again t ↦ pull w fuel (i + 1) idx name want t
]

-- The pull from the Host.
unfoldable pub from_host : World → ℤ → GoString → Session → Result × Session
from_host w idx want s = elim w.host_segment [
  | none ↦ (host_fails, s)
  | some body ↦
      if not (want == []) && not (verify_segment w.sum256 body want)
      then (unavailable, s)
      else (found body, store w.after_put w.after_mark s idx body)
]

-- The published hashes put over the known ones.
unfoldable pub learn : Map GoString GoString → Map GoString GoString → Map GoString GoString
learn [] hashes = hashes
learn ((k, v) ∷ parsed) hashes = learn parsed (insert k v hashes)

-- The hash, empty if there is none, and the session after the call.
unfoldable pub expected_hash : World → GoString → Session → GoString × Session
expected_hash w name s = elim (lookup name s.hashes) [
  | some h ↦ (h, s)
  | none ↦ elim w.host_playlist [
    | none ↦ ([], s)
    | some pl ↦
        let hashes = learn (parse_hashes pl) s.hashes in
        (elim (lookup name hashes) [ none ↦ [] | some h ↦ h ], record s { hashes = hashes })
  ]
]

-- The part of `FetchSegment` after the hash is known.
unfoldable pub fetch_checked : World → ℕ → ℤ → GoString → GoString → Session → Result × Session
fetch_checked w fuel idx name want s = elim (want == []) [
  | true ↦ from_host w idx want s
  | false ↦ elim (pull w fuel 0 idx name want s) [
    | pulled body t ↦ (found body, t)
    | exhausted t ↦ from_host w idx want t
    | again t ↦ (unfinished, t)
  ]
]

unfoldable pub fetch_segment : World → ℕ → GoString → Session → Result × Session
fetch_segment w fuel name s = elim (seg_index name) [
  | none ↦ (elim w.host_segment [ none ↦ host_fails | some body ↦ found body ], s)
  | some idx ↦
      let seen = record s { last_idx = idx } in
      elim (cache_get idx s.cache) [
        | some b ↦ (found b, seen)
        | none ↦
            let (want, known) = expected_hash w name seen in
            fetch_checked w fuel idx name want known
      ]
]
