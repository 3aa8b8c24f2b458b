-- ===== src/Media/Hash.antt =====
-- internal/media/hash.go: the hashes of Segments and their place in a playlist.
-- `sum256` is github.com/zeebo/blake3's `Sum256`; `read` is what the file of a Segment's base name
-- holds, none if it cannot be read.
pub mod Lines
pub mod Hex
pub mod Parsing
pub mod Published
use p2p_hls.Prelude.{
  ℕ, ◌+◌, ◌/◌, ◌%◌, GoString, bytes, Bool, if◌then◌else◌, ltb, string_eq, split, List, [], ◌∷◌,
  ◌++◌, Option, none, some, Map, lookup, insert,
}
use p2p_hls.Swarm.Integrity.{hash_tag, trim_line, is_segment_line}

unfoldable pub hex_char : ℕ → ℕ
hex_char d = if ltb d 10 then 48 + d else 87 + d

-- `hex.EncodeToString`
unfoldable pub encode_hex : List ℕ → GoString
encode_hex [] = []
encode_hex (b ∷ r) = hex_char (b / 16) ∷ hex_char (b % 16) ∷ encode_hex r

-- `strings.Join` with a separator of one byte.
unfoldable pub join : ℕ → List GoString → GoString
join sep [] = []
join sep (x ∷ []) = x
join sep (x ∷ y ∷ r) = x ++ (sep ∷ join sep (y ∷ r))

-- A line with the tag before it, if there is a hash.
unfoldable pub with_tag : Option GoString → GoString → List GoString
with_tag none line = line ∷ []
with_tag (some hex) line = (hash_tag ++ hex) ∷ line ∷ []

module _ (sum256 : List ℕ → List ℕ) (read : GoString → Option (List ℕ)) where
  -- `SegmentHashes.Hash` at the cache.
  unfoldable pub segment_hash :
      Map GoString GoString → GoString → Map GoString GoString × Option GoString
  segment_hash cache name = elim (lookup name cache) [
    | some hex ↦ (cache, some hex)
    | none ↦ elim (read name) [
      | none ↦ (cache, none)
      | some content ↦
          (insert name (encode_hex (sum256 content)) cache, some (encode_hex (sum256 content)))
    ]
  ]

  unfoldable pub inject_line :
      Map GoString GoString → GoString → Map GoString GoString × List GoString
  inject_line cache line =
      if is_segment_line (trim_line line)
      then (let (cache', hex) = segment_hash cache (trim_line line) in (cache', with_tag hex line))
      else (cache, line ∷ [])

  unfoldable pub inject_lines :
      Map GoString GoString → List GoString → Map GoString GoString × List GoString
  inject_lines cache [] = (cache, [])
  inject_lines cache (line ∷ r) =
      let (cache', out) = inject_line cache line in
      let (cache'', rest) = inject_lines cache' r in (cache'', out ++ rest)

  unfoldable pub inject_hashes : Map GoString GoString → GoString → Map GoString GoString × GoString
  inject_hashes cache playlist =
      let (cache', out) = inject_lines cache (split 10 playlist) in (cache', join 10 out)
