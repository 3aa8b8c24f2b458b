-- ===== src/Media/Hash/Hex.antt =====
-- encodeHex of internal/media/hash.go against the decoder of internal/swarm/integrity.go.
use p2p_hls.Prelude.{
  ℕ, ◌+◌, ◌*◌, ◌/◌, ◌%◌, ◌<◌, ◌≡◌, ◌≢◌, ◌↔◌, inl, inr, refl, ap, ◌∙◌, GoString, true, false, ltb,
  List, [], ◌∷◌, ◌++◌, any, All, ==_iff, string_eq, Bool-cases, some, arith,
}
use p2p_hls.Swarm.Integrity.{is_blank, hash_tag, hex_digit, hex_decode, verify_segment}
use p2p_hls.Media.Hash.{hex_char, encode_hex}
use p2p_hls.Media.Hash.Lines.{any-append, is_feed, IsLine}

-- Hexadecimal digits: round trip, and no blank among them.
hex_digit-hex_char : (d : ℕ) → d < 16 → hex_digit (hex_char d) ≡ some d
unfolding hex_digit hex_char
hex_digit-hex_char d h = elim (Bool-cases (ltb d 10)) [
  | inl q ↦ rw q (ground arith)
  | inr q ↦ rw q (ground arith)
]

pair :
    (c d : ℕ) (s : GoString) {h l : ℕ} {r : List ℕ}
    → hex_digit c ≡ some h
    → hex_digit d ≡ some l
    → hex_decode s ≡ some r
    → hex_decode (c ∷ d ∷ s) ≡ some ((h * 16 + l) ∷ r)
unfolding hex_decode
pair c d s e f g = rw (e, hex_decode, f, g) refl

hex_decode-encode_hex : (b : List ℕ) → All (λ x. x < 256) b → hex_decode (encode_hex b) ≡ some b
unfolding hex_decode encode_hex
hex_decode-encode_hex [] h = refl
hex_decode-encode_hex (x ∷ r) h =
    pair (hex_char (x / 16)) (hex_char (x % 16)) (encode_hex r)
      (hex_digit-hex_char (x / 16) (omega (arith, h.0))) (hex_digit-hex_char (x % 16) (omega arith))
      (hex_decode-encode_hex r h.1)
    ∙ ap some (ap (λ (n : ℕ). n ∷ r) (omega arith))

-- Neither blanks nor line feeds.
abbrev pub IsPlain : GoString → Type 0
IsPlain s = (any is_blank s ≡ false) × IsLine s

hex_char-plain : (d : ℕ) → (is_blank (hex_char d) ≡ false) × (is_feed (hex_char d) ≡ false)
unfolding is_blank hex_char
hex_char-plain d = elim (Bool-cases (ltb d 10)) [
  | inl q ↦ rw q (ground arith, ground arith)
  | inr q ↦ rw q (ground arith, ground arith)
]

pub encode_hex-IsPlain : (b : List ℕ) → IsPlain (encode_hex b)
unfolding encode_hex
encode_hex-IsPlain [] = (refl, refl)
encode_hex-IsPlain (x ∷ r) =
    let h = hex_char-plain (x / 16) in
    let l = hex_char-plain (x % 16) in let i = encode_hex-IsPlain r in (ground arith, ground arith)

pub encode_hex-ne : (b : List ℕ) → b ≢ [] → encode_hex b ≢ []
unfolding encode_hex
encode_hex-ne [] ne = ne
encode_hex-ne (x ∷ r) ne = λ e. ground arith

pub tag_line-IsPlain : (hex : GoString) → IsPlain hex → IsPlain (hash_tag ++ hex)
unfolding is_blank
tag_line-IsPlain hex p =
    (any-append is_blank hash_tag hex ∙ p.0, any-append is_feed hash_tag hex ∙ p.1)

pub verify_segment-encode_hex :
    (sum256 : List ℕ → List ℕ) (body sum : List ℕ)
    → All (λ x. x < 256) sum
    → sum ≢ []
    → (verify_segment sum256 body (encode_hex sum) ≡ true) ↔ (sum256 body ≡ sum)
unfolding verify_segment
verify_segment-encode_hex sum256 body [] h ne = absurd (ne refl)
verify_segment-encode_hex sum256 body (b ∷ want) h ne =
    rw (hex_decode-encode_hex (b ∷ want) h, verify_segment) (==_iff (sum256 body) (b ∷ want))
