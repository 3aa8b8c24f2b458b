-- ===== src/Media/Hash/Parsing.antt =====
-- ParseHashes of internal/swarm/integrity.go at one line of a playlist.
use p2p_hls.Prelude.{
  ◌≡◌, ◌≢◌, inl, inr, refl, ap, ◌∙◌, GoString, true, false, not, eqb, if◌then◌else◌, List, [], ◌∷◌,
  ◌++◌, ◌==◌, ==_iff, string_eq, Bool-cases, Map, insert, has_prefix, trim_prefix, arith,
}
use p2p_hls.Swarm.Integrity.{trim_line, hash_tag, is_segment_line, parse_lines}
use p2p_hls.Media.Hash.Lines.{trim_line_none, has_prefix-append, trim_prefix-append}
use p2p_hls.Media.Hash.Hex.{IsPlain, tag_line-IsPlain}

segment_no_tag : (t : GoString) → is_segment_line t ≡ true → has_prefix t hash_tag ≡ false
unfolding is_segment_line has_prefix
segment_no_tag [] h = refl
segment_no_tag (c ∷ t) h = elim (Bool-cases (eqb c 35)) [
  | inl q ↦ ground arith
  | inr q ↦ ground arith
]

-- What the parser does at a tag, at a Segment's line and at another.
parse-tag :
    (pending hex line : GoString) (out : Map GoString GoString) (r : List GoString)
    → trim_line line ≡ line
    → has_prefix line hash_tag ≡ true
    → trim_prefix line hash_tag ≡ hex
    → parse_lines pending out (line ∷ r) ≡ parse_lines hex out r
unfolding parse_lines
parse-tag pending hex line out r e h k =
    let h' = ap (λ x. has_prefix x hash_tag) e ∙ h in
    let k' = ap (λ x. trim_prefix x hash_tag) e ∙ k in
    rw (h', parse_lines) (ap (λ p. parse_lines p out r) k')

pub parse-segment :
    (pending line : GoString) (out : Map GoString GoString) (r : List GoString)
    → is_segment_line (trim_line line) ≡ true
    → parse_lines pending out (line ∷ r) ≡ (
        if not (pending == [])
        then parse_lines [] (insert (trim_line line) pending out) r
        else parse_lines pending out r)
unfolding parse_lines
parse-segment pending line out r seg =
    let no = segment_no_tag (trim_line line) seg in
    elim (Bool-cases (pending == [])) [
      | inl q ↦ rw (no, parse_lines, seg, q) refl
      | inr q ↦ rw (no, parse_lines, seg, q) refl
    ]

pub parse-other :
    (pending line : GoString) (out : Map GoString GoString) (r : List GoString)
    → is_segment_line (trim_line line) ≡ false
    → parse_lines pending out (line ∷ r)
      ≡ parse_lines
          (if has_prefix (trim_line line) hash_tag
            then trim_prefix (trim_line line) hash_tag
            else pending)
          out
          r
unfolding parse_lines
parse-other pending line out r seg = elim (Bool-cases (has_prefix (trim_line line) hash_tag)) [
  | inl q ↦ rw (q, parse_lines) refl
  | inr q ↦ rw (q, parse_lines, seg) refl
]

pub parse-tagged :
    (pending hex line : GoString) (out : Map GoString GoString) (r : List GoString)
    → IsPlain hex
    → hex ≢ []
    → is_segment_line (trim_line line) ≡ true
    → parse_lines pending out ((hash_tag ++ hex) ∷ line ∷ r)
      ≡ parse_lines [] (insert (trim_line line) hex out) r
parse-tagged pending hex line out r p ne seg =
    parse-tag pending hex (hash_tag ++ hex) out (line ∷ r)
      (trim_line_none (hash_tag ++ hex) (tag_line-IsPlain hex p).0) (has_prefix-append hash_tag hex)
      (trim_prefix-append hash_tag hex)
    ∙ parse-segment hex line out r seg
    ∙ elim (Bool-cases (hex == [])) [
      | inl q ↦ absurd (ne ((==_iff hex []).0 q))
      | inr q ↦ rw q refl
    ]
