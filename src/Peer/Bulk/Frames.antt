-- ===== src/Peer/Bulk/Frames.antt =====
-- A bulk frame comes back from the wire as it was sent.
use p2p_hls.Prelude.{
  ℕ, zero, suc, ◌+◌, ◌*◌, ◌/◌, ◌%◌, ◌<◌, ◌≡◌, refl, sym, ap, ◌∙◌, Bool, true, false, not,
  if◌then◌else◌, ltb, eqb, List, [], ◌∷◌, ◌++◌, length, length-append, append_assoc, take, drop,
  some, arith,
}
use p2p_hls.Peer.Bulk.{
  put_big_endian, big_endian, encode_bulk_frame, decode_bulk_frame, flags_and_payload,
}

take-append : (xs ys : List ℕ) → take (length xs) (xs ++ ys) ≡ xs
take-append [] [] = refl
take-append [] (y ∷ ys) = refl
take-append (x ∷ xs) ys = ap (◌∷◌ x) (take-append xs ys)

drop-append : (xs ys : List ℕ) → drop (length xs) (xs ++ ys) ≡ ys
drop-append [] [] = refl
drop-append [] (y ∷ ys) = refl
drop-append (x ∷ xs) ys = drop-append xs ys

length-put_big_endian : (n v : ℕ) → length (put_big_endian n v) ≡ n
unfolding put_big_endian
length-put_big_endian zero v = refl
length-put_big_endian (suc n) v = omega (
  arith,
  length-append (put_big_endian n (v / 256)) ((v % 256) ∷ []),
  length-put_big_endian n (v / 256),
)

big_endian-snoc :
    (acc : ℕ) (xs : List ℕ) (b : ℕ) → big_endian acc (xs ++ b ∷ []) ≡ big_endian acc xs * 256 + b
unfolding big_endian
big_endian-snoc acc [] b = refl
big_endian-snoc acc (x ∷ xs) b = big_endian-snoc (acc * 256 + x) xs b

size : ℕ → ℕ
size zero = 1
size (suc n) = 256 * size n

big_endian-put_big_endian : (n v : ℕ) → v < size n → big_endian 0 (put_big_endian n v) ≡ v
unfolding put_big_endian big_endian size
big_endian-put_big_endian zero v h = omega arith
big_endian-put_big_endian (suc n) v h =
    big_endian-snoc 0 (put_big_endian n (v / 256)) (v % 256)
    ∙ omega (arith, big_endian-put_big_endian n (v / 256) (omega arith))

take_at : (n : ℕ) (xs ys : List ℕ) → length xs ≡ n → take n (xs ++ ys) ≡ xs
take_at n xs ys e = ap (λ k. take k (xs ++ ys)) (sym e) ∙ take-append xs ys

drop_at : (n : ℕ) (xs ys : List ℕ) → length xs ≡ n → drop n (xs ++ ys) ≡ ys
drop_at n xs ys e = ap (λ k. drop k (xs ++ ys)) (sym e) ∙ drop-append xs ys

-- A header in two parts, decoded.
decode-parts :
    (xs ys : List ℕ) (b : ℕ) (payload : List ℕ)
    → length xs ≡ 8
    → length ys ≡ 4
    → decode_bulk_frame (xs ++ (ys ++ (b ∷ payload)))
      ≡ some (big_endian 0 xs, big_endian 0 ys, not (eqb (b % 2) 0), payload)
unfolding decode_bulk_frame flags_and_payload
decode-parts xs ys b payload e f =
    rw
      (
        long,
        take_at 8 xs (ys ++ (b ∷ payload)) e,
        drop_at 8 xs (ys ++ (b ∷ payload)) e,
        take_at 4 ys (b ∷ payload) f,
        rest,
      )
      refl
  where
    long : ltb (length (xs ++ (ys ++ (b ∷ payload)))) 13 ≡ false
    long = ground (arith, length-append xs (ys ++ (b ∷ payload)), length-append ys (b ∷ payload))

    rest : drop 12 (xs ++ (ys ++ (b ∷ payload))) ≡ b ∷ payload
    rest =
        ap (drop 12) (sym (append_assoc xs ys (b ∷ payload)))
        ∙ drop_at 12 (xs ++ ys) (b ∷ payload) (omega (arith, length-append xs ys))

-- Round trip: what is encoded as a bulk frame, a uint64 request id, a uint32 sequence number, the
-- last-frame flag and a payload of any length, is decoded again from the frame.
pub decode-encode_bulk_frame :
    (request_id seq : ℕ) (last : Bool) (payload : List ℕ)
    → request_id < 18446744073709551616
    → seq < 4294967296
    → decode_bulk_frame (encode_bulk_frame request_id seq last payload)
      ≡ some (request_id, seq, last, payload)
unfolding encode_bulk_frame size
decode-encode_bulk_frame request_id seq last payload h k =
    decode-parts (put_big_endian 8 request_id) (put_big_endian 4 seq) (if last then 1 else 0)
      payload (length-put_big_endian 8 request_id) (length-put_big_endian 4 seq)
    ∙ rw (big_endian-put_big_endian 8 request_id h, big_endian-put_big_endian 4 seq k, flag last)
        refl
  where
    flag : (b : Bool) → not (eqb ((if b then 1 else 0) % 2) 0) ≡ b
    flag true = refl
    flag false = refl
