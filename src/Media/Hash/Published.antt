-- ===== src/Media/Hash/Published.antt =====
-- The hashes that a node puts into a playlist are those that a Viewer's node reads from it, and they
-- verify the Segments.
use p2p_hls.Prelude.{
  ℕ, ◌<◌, ◌≡◌, ◌≢◌, ◌⊎◌, ◌↔◌, inl, inr, refl, sym, ap, subst, ◌∙◌, GoString, true, if◌then◌else◌,
  List, [], ◌∷◌, ◌++◌, All, split, ◌==◌, ==_iff, string_eq, Bool-cases, Option-cases, Option, none,
  some, Map, map_some, lookup, insert, lookup-insert, has_prefix, trim_prefix, arith,
}
use mathlib.Core.Option.{some-injective}
use p2p_hls.Swarm.Integrity.{
  trim_line, hash_tag, is_segment_line, parse_lines, parse_hashes, verify_segment,
}
use p2p_hls.Media.Hash.{
  encode_hex, join, segment_hash, with_tag, inject_line, inject_lines, inject_hashes,
}
use p2p_hls.Media.Hash.Lines.{IsLine, split-All, split-join}
use p2p_hls.Media.Hash.Hex.{
  IsPlain, encode_hex-IsPlain, encode_hex-ne, tag_line-IsPlain, verify_segment-encode_hex,
}
use p2p_hls.Media.Hash.Parsing.{parse-segment, parse-other, parse-tagged}

-- A Segment's line among the lines of a playlist.
abbrev pub Occurs : GoString → List GoString → Type 0
Occurs t [] = ⊥
Occurs t (line ∷ r) = (trim_line line ≡ t) ⊎ Occurs t r

-- The playlist with the hashes that a function gives.
module _ (f : GoString → Option GoString) where
  mark : GoString → List GoString
  mark line =
      if is_segment_line (trim_line line) then with_tag (f (trim_line line)) line else line ∷ []

  mark_all : List GoString → List GoString
  mark_all [] = []
  mark_all (line ∷ r) = mark line ++ mark_all r

  -- The hashes are plain texts, and not empty.
  IsPlainHash : Type 0
  IsPlainHash = (name hex : GoString) → f name ≡ some hex → IsPlain hex × (hex ≢ [])

  module _ (t v : GoString) (good : IsPlainHash) (hashed : f t ≡ some v)
      (seg : is_segment_line t ≡ true) where
    -- Its hash is in the map, or will be.
    abbrev Due : Map GoString GoString → List GoString → Type 0
    Due out lines = (lookup t out ≡ some v) ⊎ Occurs t lines

    later-Due :
        (line : GoString) (r : List GoString) (out : Map GoString GoString)
        → trim_line line ≢ t
        → Due out (line ∷ r)
        → Due out r
    later-Due line r out ne (inl d) = inl d
    later-Due line r out ne (inr (inl e)) = absurd (ne e)
    later-Due line r out ne (inr (inr o)) = inr o

    beside-Due :
        (line w : GoString) (r : List GoString) (out : Map GoString GoString)
        → trim_line line ≢ t
        → Due out (line ∷ r)
        → Due (insert (trim_line line) w out) r
    beside-Due line w r out ne due = elim (Bool-cases (trim_line line == t)) [
      | inl q ↦ absurd (ne ((==_iff (trim_line line) t).0 q))
      | inr q ↦ elim (later-Due line r out ne due) [
        | inl d ↦ inl (lookup-insert (trim_line line) t w out ∙ rw q d)
        | inr o ↦ inr o
      ]
    ]

    insert-Due :
        (line w : GoString) (r : List GoString) (out : Map GoString GoString)
        → f (trim_line line) ≡ some w
        → Due out (line ∷ r)
        → Due (insert (trim_line line) w out) r
    insert-Due line w r out e due = elim (Bool-cases (trim_line line == t)) [
      | inl q ↦ inl (
          lookup-insert (trim_line line) t w out
          ∙ rw q (sym e ∙ ap f ((==_iff (trim_line line) t).0 q) ∙ hashed))
      | inr q ↦ beside-Due line w r out (λ z. ground (arith, ==_iff (trim_line line) t)) due
    ]

    parse-mark_all :
        (lines : List GoString) (pending : GoString) (out : Map GoString GoString)
        → Due out lines
        → lookup t (parse_lines pending out (mark_all lines)) ≡ some v
    unfolding mark_all mark with_tag parse_lines IsPlainHash
    parse-mark_all [] pending out (inl e) = e
    parse-mark_all [] pending out (inr o) = elim o [ ]
    parse-mark_all (line ∷ r) pending out due =
        let keep = parse-mark_all r in
        elim (Bool-cases (is_segment_line (trim_line line))) [
          | inl s ↦ elim (Option-cases (f (trim_line line))) [
            | inr (w, e) ↦
                let g = good (trim_line line) w e in
                rw (s, mark, e, parse-tagged pending w line out (mark_all r) g.0 g.1 s)
                  (keep [] (insert (trim_line line) w out) (insert-Due line w r out e due))
            | inl e ↦
                let ne : trim_line line ≢ t =
                  λ z. let b = sym e ∙ ap f z ∙ hashed in ground arith in
                rw (s, mark, e, parse-segment pending line out (mark_all r) s)
                  (elim (Bool-cases (pending == [])) [
                    | inl q ↦ rw q (keep pending out (later-Due line r out ne due))
                    | inr q ↦ rw q (
                        keep [] (insert (trim_line line) pending out)
                          (beside-Due line pending r out ne due))
                  ])
          ]
          | inr s ↦
              let ne : trim_line line ≢ t =
                λ z. let b = sym seg ∙ ap is_segment_line (sym z) ∙ s in ground arith in
              rw (s, mark, parse-other pending line out (mark_all r) s)
                (keep
                  (if has_prefix (trim_line line) hash_tag
                    then trim_prefix (trim_line line) hash_tag
                    else pending)
                  out (later-Due line r out ne due))
        ]

  mark_all-IsLine :
      (lines : List GoString) → IsPlainHash → All IsLine lines → All IsLine (mark_all lines)
  unfolding mark_all mark with_tag IsPlainHash
  mark_all-IsLine [] good h = tt
  mark_all-IsLine (line ∷ r) good h = elim (Bool-cases (is_segment_line (trim_line line))) [
    | inr s ↦ rw (s, mark) (h.0, mark_all-IsLine r good h.1)
    | inl s ↦ elim (Option-cases (f (trim_line line))) [
      | inl e ↦ rw (s, mark, e) (h.0, mark_all-IsLine r good h.1)
      | inr (w, e) ↦
          rw (s, mark, e)
            (
              (tag_line-IsPlain w (good (trim_line line) w e).0).1,
              (h.0, mark_all-IsLine r good h.1),
            )
    ]
  ]

split-join_lines :
    (lines : List GoString) → lines ≢ [] → All IsLine lines → split 10 (join 10 lines) ≡ lines
split-join_lines [] ne h = absurd (ne refl)
split-join_lines (x ∷ r) ne h = split-join x r h

module _ (sum256 : List ℕ → List ℕ) (read : GoString → Option (List ℕ)) where
  -- The hash of a Segment that is on disk.
  abbrev hash_on_disk : GoString → Option GoString
  hash_on_disk name = map_some (λ content. encode_hex (sum256 content)) (read name)

  -- The cache holds only hashes of what is on disk.
  abbrev pub IsFresh : Map GoString GoString → Type 0
  IsFresh cache =
      (name hex : GoString)
      → lookup name cache ≡ some hex
      → map_some (λ content. encode_hex (sum256 content)) (read name) ≡ some hex

  insert-IsFresh :
      (cache : Map GoString GoString) (name : GoString) (content : List ℕ)
      → read name ≡ some content
      → IsFresh cache
      → IsFresh (insert name (encode_hex (sum256 content)) cache)
  insert-IsFresh cache name content q fresh = λ k hex h.
      let at_k = lookup-insert name k (encode_hex (sum256 content)) cache in
      elim (Bool-cases (name == k)) [
        | inl s ↦
            let here : some (encode_hex (sum256 content)) ≡ some hex = sym (at_k ∙ rw s refl) ∙ h in
            ap (map_some (λ c. encode_hex (sum256 c))) (ap read (sym ((==_iff name k).0 s)) ∙ q)
            ∙ here
        | inr s ↦
            let there : lookup k cache ≡ some hex = sym (at_k ∙ rw s refl) ∙ h in fresh k hex there
      ]

  segment_hash-IsFresh :
      (cache : Map GoString GoString) (name : GoString)
      → IsFresh cache
      → ((segment_hash sum256 read cache name).1 ≡ hash_on_disk name)
        × IsFresh (segment_hash sum256 read cache name).0
  unfolding segment_hash
  segment_hash-IsFresh cache name fresh = elim (Option-cases (lookup name cache)) [
    | inr (hex, e) ↦ rw (e, segment_hash) (sym (fresh name hex e), fresh)
    | inl e ↦ elim (Option-cases (read name)) [
      | inl q ↦ rw (e, segment_hash, q) (refl, fresh)
      | inr (content, q) ↦ rw (e, segment_hash, q) (refl, insert-IsFresh cache name content q fresh)
    ]
  ]

  inject_lines-mark_all :
      (cache : Map GoString GoString) (lines : List GoString)
      → IsFresh cache
      → (inject_lines sum256 read cache lines).1 ≡ mark_all hash_on_disk lines
  unfolding inject_lines inject_line mark_all mark
  inject_lines-mark_all cache [] fresh = refl
  inject_lines-mark_all cache (line ∷ r) fresh =
      elim (Bool-cases (is_segment_line (trim_line line))) [
        | inr s ↦
            rw (s, inject_lines, inject_line, mark)
              (ap (◌∷◌ line) (inject_lines-mark_all cache r fresh))
        | inl s ↦
            let h = segment_hash-IsFresh cache (trim_line line) fresh in
            rw (s, inject_lines, inject_line, mark, h.0)
              (ap (λ rest. with_tag (hash_on_disk (trim_line line)) line ++ rest)
                (inject_lines-mark_all (segment_hash sum256 read cache (trim_line line)).0 r h.1))
      ]

  mark_all-ne : (lines : List GoString) → lines ≢ [] → mark_all hash_on_disk lines ≢ []
  unfolding mark_all mark with_tag
  mark_all-ne [] ne = ne
  mark_all-ne (line ∷ r) ne = elim (Bool-cases (is_segment_line (trim_line line))) [
    | inr s ↦ rw (s, mark) (λ e. ground arith)
    | inl s ↦ elim (Option-cases (hash_on_disk (trim_line line))) [
      | inl e ↦ rw (s, mark, e) (λ e. ground arith)
      | inr (w, e) ↦ rw (s, mark, e) (λ e. ground arith)
    ]
  ]

  hash_on_disk-IsPlainHash : ((b : List ℕ) → sum256 b ≢ []) → IsPlainHash hash_on_disk
  unfolding IsPlainHash
  hash_on_disk-IsPlainHash full name hex e = from (read name) e
    where
      from :
          (o : Option (List ℕ))
          → map_some (λ c. encode_hex (sum256 c)) o ≡ some hex
          → IsPlain hex × (hex ≢ [])
      from none e = ground arith
      from (some c) e =
          subst (λ x. IsPlain x × (x ≢ [])) (some-injective (encode_hex (sum256 c)) hex e)
            (encode_hex-IsPlain (sum256 c), encode_hex-ne (sum256 c) (full c))

-- From the Host's disk to a Viewer's check. Whatever the playlist holds, tags of an earlier rewriting
-- or blanks around its lines included, every Segment line of it whose file is on disk is published:
-- in the playlist that `InjectHashes` makes, `ParseHashes` finds a hash for its name, and
-- `VerifySegment` accepts against that hash exactly the bodies with the same BLAKE3 sum as the file on
-- disk. The sums are bytes and not empty, and the cache, filled by earlier calls, holds hashes of what
-- is on disk.
pub inject_hashes-verified :
    (sum256 : List ℕ → List ℕ) (read : GoString → Option (List ℕ)) (cache : Map GoString GoString)
    (playlist t : GoString) (content : List ℕ)
    → ((b : List ℕ) → All (λ x. x < 256) (sum256 b) × (sum256 b ≢ []))
    → IsFresh sum256 read cache
    → is_segment_line t ≡ true
    → Occurs t (split 10 playlist)
    → read t ≡ some content
    → (hex : GoString) × (lookup t (parse_hashes (inject_hashes sum256 read cache playlist).1)
        ≡ some hex)
      × ((body : List ℕ) → (verify_segment sum256 body hex ≡ true) ↔ (sum256 body ≡ sum256 content))
unfolding parse_hashes inject_hashes
inject_hashes-verified sum256 read cache playlist t content sums fresh seg occurs on_disk = (
  encode_hex (sum256 content),
  rw
      (
        inject_lines-mark_all sum256 read cache (split 10 playlist) fresh,
        split-join_lines marked
            (mark_all-ne sum256 read (split 10 playlist) (λ e. subst (Occurs t) e occurs))
            (mark_all-IsLine (hash_on_disk sum256 read) (split 10 playlist) plain
              (split-All playlist)),
      )
      (parse-mark_all (hash_on_disk sum256 read) t (encode_hex (sum256 content)) plain
        (ap (map_some (λ c. encode_hex (sum256 c))) on_disk) seg (split 10 playlist) [] []
        (inr occurs)),
  (λ body.
      verify_segment-encode_hex sum256 body (sum256 content) (sums content).0 (sums content).1),
)
  where
    marked : List GoString
    marked = mark_all (hash_on_disk sum256 read) (split 10 playlist)

    plain : IsPlainHash (hash_on_disk sum256 read)
    plain = hash_on_disk-IsPlainHash sum256 read (λ b. (sums b).1)
