-- ===== src/Tests/Wire.antt =====
-- A frame as internal/peer/bulk_test.go has it.
use p2p_hls.Prelude.{◌≡◌, refl, true, [], ◌∷◌}
use p2p_hls.Peer.Bulk.{put_big_endian, encode_bulk_frame}

header :
    encode_bulk_frame 258 7 true (9 ∷ [])
    ≡ 0 ∷ 0 ∷ 0 ∷ 0 ∷ 0 ∷ 0 ∷ 1 ∷ 2 ∷ 0 ∷ 0 ∷ 0 ∷ 7 ∷ 1 ∷ 9 ∷ []
unfolding encode_bulk_frame put_big_endian
header = refl
