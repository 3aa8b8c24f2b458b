-- ===== src/Tests/MediaFiles.antt =====
-- Runs of internal/media and internal/library as in their tests, and the theorems at inputs.
use p2p_hls.Prelude.{
  ℕ, none, ◌≤◌, ◌<◌, ◌≡◌, ◌⊎◌, ◌↔◌, inl, inr, refl, GoString, bytes, true, false, not, leb, List,
  [], ◌∷◌, ◌++◌, All, select, Option, some, lookup, split, split_from, has_prefix, has_suffix,
  trim_prefix, trim_suffix, skip, to_lower, str_beq, map, has, In, Distinct, insert, string_eq,
  Bool-cases, arith,
}
use mathlib.Core.List.{Perm}
use mathlib.Core.List as List
use p2p_hls.Swarm.Integrity.{
  parse_hashes, verify_segment, is_segment_line, trim_line, trim_blanks, is_blank,
}
use p2p_hls.Catalog.{Policy, new_policy, allowed}
use p2p_hls.Peer.Session.{ok}
use p2p_hls.Library.{
  Probe, build_title, is_hls_compatible, is_hls_streams, is_hls_codecs, display_title_from_path,
  fields_from, end_word, scan_sidecar_subs, sidecar_track, sidecar_language, or_und, trim_dots_left,
  is_stem_of,
}
use p2p_hls.Media.Ffmpeg.{video_args, audio_args, copy_video, copy_audio}
use p2p_hls.Media.Ffmpeg.Copies.{build_title-copies}
use p2p_hls.Media.Engine.{
  Jobs, Outside, ensure_job, lookup_title, start_job, finish, new_job, with_job, job_file,
  is_subtitle_playlist, read_file, file, remote_file,
}
use p2p_hls.Media.Engine.Jobs.{
  MediaEvent, remote_asks, owner_asks, finishes, AnyAsksFor, media_step, media_run,
  media_run-Distinct,
}
use p2p_hls.Media.Cache.{CacheEntry, is_idle, total_size, evict_until, evict_cache}
use p2p_hls.Media.Cache.Budget.{IsSorted, Evicts, evict_cache-Evicts}
use p2p_hls.Media.Hash.{inject_hashes}
use p2p_hls.Media.Hash.Published.{inject_hashes-verified}

-- Sorting by insertion, for a run.
unfoldable put_in : CacheEntry → List CacheEntry → List CacheEntry
put_in d [] = d ∷ []
put_in d (e ∷ r) = elim (leb d.accessed e.accessed) [ true ↦ d ∷ e ∷ r | false ↦ e ∷ put_in d r ]

unfoldable insertion_sort : List CacheEntry → List CacheEntry
insertion_sort [] = []
insertion_sort (d ∷ r) = put_in d (insertion_sort r)

All-put_in :
    (P : CacheEntry → Type 0) (d : CacheEntry) (l : List CacheEntry)
    → P d
    → All P l
    → All P (put_in d l)
unfolding put_in
All-put_in P d [] p a = (p, tt)
All-put_in P d (e ∷ r) p a = elim (Bool-cases (leb d.accessed e.accessed)) [
  | inl q ↦ rw (q, put_in) (p, a)
  | inr q ↦ rw (q, put_in) (a.0, All-put_in P d r p a.1)
]

All-later :
    (m n : ℕ) (l : List CacheEntry)
    → m ≤ n
    → All (λ e. n ≤ e.accessed) l
    → All (λ e. m ≤ e.accessed) l
All-later m n [] h a = tt
All-later m n (e ∷ r) h a = (omega (arith, a.0), All-later m n r h a.1)

put_in-IsSorted : (d : CacheEntry) (l : List CacheEntry) → IsSorted l → IsSorted (put_in d l)
unfolding put_in
put_in-IsSorted d [] s = (tt, tt)
put_in-IsSorted d (e ∷ r) s = elim (Bool-cases (leb d.accessed e.accessed)) [
  | inl q ↦
      let h : d.accessed ≤ e.accessed = ground arith in
      rw (q, put_in) ((h, All-later d.accessed e.accessed r h s.0), s)
  | inr q ↦
      let h : e.accessed ≤ d.accessed = ground arith in
      rw (q, put_in) (All-put_in (λ x. e.accessed ≤ x.accessed) d r h s.0, put_in-IsSorted d r s.1)
]

put_in-Perm : (d : CacheEntry) (l : List CacheEntry) → Perm (put_in d l) (d ∷ l)
unfolding put_in
put_in-Perm d [] = List.Perm.refl (d ∷ [])
put_in-Perm d (e ∷ r) = elim (Bool-cases (leb d.accessed e.accessed)) [
  | inl q ↦ rw (q, put_in) (List.Perm.refl (d ∷ e ∷ r))
  | inr q ↦
      rw (q, put_in) (List.Perm.trans (List.Perm.cons e (put_in-Perm d r)) (List.Perm.swap d e r))
]

insertion_sort-sorts :
    (l : List CacheEntry) → Perm (insertion_sort l) l × IsSorted (insertion_sort l)
unfolding insertion_sort
insertion_sort-sorts [] = (List.Perm.refl [], tt)
insertion_sort-sorts (d ∷ r) =
    let i = insertion_sort-sorts r in
    (
      List.Perm.trans (put_in-Perm d (insertion_sort r)) (List.Perm.cons d i.0),
      put_in-IsSorted d (insertion_sort r) i.1,
    )

-- Three directories, one of them idle; the two others are over the budget.
abbrev cached : List CacheEntry
cached =
    record { path = bytes "new"; size = 60; accessed = 95 }
    ∷ record { path = bytes "idle"; size = 1; accessed = 10 }
    ∷ record { path = bytes "old"; size = 60; accessed = 80 }
    ∷ []

evict_cache-Evicts_example :
    let dirs = select (λ d. not (is_idle 100 50 d)) cached in
    let (gone, left) = evict_cache insertion_sort 100 100 50 cached in
    (removed : List CacheEntry) × (gone ≡ select (is_idle 100 50) cached ++ removed)
    × (((total_size dirs ≤ 100) × (removed ≡ []) × (left ≡ dirs))
        ⊎ ((100 < total_size dirs) × Evicts 100 (insertion_sort dirs) removed left))
evict_cache-Evicts_example =
    evict_cache-Evicts insertion_sort insertion_sort-sorts 100 100 50 cached

-- The oldest goes.
evicts_old : evict_cache insertion_sort 100 100 50 cached ≡ (
  record { path = bytes "idle"; size = 1; accessed = 10 }
      ∷ record { path = bytes "old"; size = 60; accessed = 80 }
      ∷ [],
  record { path = bytes "new"; size = 60; accessed = 95 } ∷ [],
)
unfolding evict_cache evict_until is_idle total_size insertion_sort put_in
evicts_old = refl

-- A stand-in for the hash function, and a directory with one Segment.
toy_sum : List ℕ → List ℕ
toy_sum b = 7 ∷ []

on_disk : GoString → Option (List ℕ)
on_disk name = some (1 ∷ 2 ∷ [])

abbrev media_playlist : GoString
media_playlist = bytes "#EXTM3U" ++ (10 ∷ bytes " seg00001.ts")

inject_hashes-verified_example :
    (hex : GoString) × (lookup
        (bytes "seg00001.ts")
        (parse_hashes (inject_hashes toy_sum on_disk [] media_playlist).1)
      ≡ some hex)
    × ((body : List ℕ)
        → (verify_segment toy_sum body hex ≡ true) ↔ (toy_sum body ≡ toy_sum (1 ∷ 2 ∷ [])))
unfolding toy_sum on_disk lookup is_segment_line has_suffix has_prefix split split_from trim_line
    trim_blanks is_blank
inject_hashes-verified_example =
    inject_hashes-verified toy_sum on_disk [] media_playlist (bytes "seg00001.ts") (1 ∷ 2 ∷ [])
      (λ b. ((omega arith, tt), (λ e. ground arith))) (λ name hex e. ground arith) refl
      (inr (inl refl)) refl

-- A file with H.264 and AAC under other names, and one without sound.
abbrev film : Probe
film = record {
  duration_ms = 1000;
  container = bytes "mov";
  video = record { codec = bytes "H264"; width = 4; height = 2 } ∷ [];
  audio = bytes "aac" ∷ [];
  subtitles = [];
}

abbrev no_digits : ℕ → GoString
no_digits n = []

build_title-copies_example :
    let t =
      build_title no_digits
        (bytes "/m/a.mp4")
        (bytes "a.mp4")
        (bytes ".mp4")
        film
        (bytes "c1")
        9
        9
        [] in
    (t.hls_compatible ≡ true) ↔ ((video_args t ≡ copy_video) × (audio_args t ≡ copy_audio))
build_title-copies_example =
    build_title-copies no_digits (bytes "/m/a.mp4") (bytes "a.mp4") (bytes ".mp4") film (bytes "c1")
      9 9 []

film_is_compatible : is_hls_compatible film ≡ true
unfolding is_hls_compatible is_hls_streams is_hls_codecs to_lower str_beq
film_is_compatible = refl

title_of_path :
    display_title_from_path (bytes "My.Great__Film.mkv") (bytes ".mkv") ≡ bytes "My Great Film"
unfolding display_title_from_path fields_from end_word trim_suffix trim_prefix has_prefix skip
    is_blank str_beq
title_of_path = refl

sidecars :
    map
      (λ t. t.language)
      (scan_sidecar_subs
        (λ name. bytes ".srt")
        (λ name. name)
        (bytes "Film")
        (bytes "Film.eng.srt" ∷ bytes "Film.srt" ∷ bytes "Filmed.srt" ∷ []))
    ≡ bytes "eng" ∷ bytes "und" ∷ []
unfolding scan_sidecar_subs sidecar_track sidecar_language or_und trim_dots_left is_stem_of has
    to_lower str_beq has_prefix trim_suffix trim_prefix skip
sidecars = refl

-- Two requests of the owner around one of a node that is not allowed, for one Title.
abbrev found_in_store : Outside ℕ
found_in_store = record { stored = ok (some 7); mkdir = none; read = ok none }

abbrev private_policy : Policy
private_policy = new_policy (bytes "private")

abbrev no_jobs : Jobs ℕ
no_jobs = []

abbrev asked : List (MediaEvent ℕ)
asked =
    remote_asks private_policy (bytes "n:b") (bytes "c1") (bytes "index.m3u8") found_in_store
    ∷ owner_asks (bytes "c1") (bytes "index.m3u8") found_in_store
    ∷ finishes (bytes "c1")
    ∷ owner_asks (bytes "c1") (bytes "seg00000.ts") found_in_store
    ∷ []

media_run-Distinct_example :
    Distinct (media_run (λ t. []) (λ l. []) (λ b. b) no_jobs asked)
    × ((k : GoString)
        → In k (media_run (λ t. []) (λ l. []) (λ b. b) no_jobs asked)
        → (lookup k no_jobs ≡ none) × AnyAsksFor asked k)
media_run-Distinct_example = media_run-Distinct (λ t. []) (λ l. []) (λ b. b) no_jobs asked

one_job : media_run (λ t. []) (λ l. []) (λ b. b) no_jobs asked ≡ bytes "c1" ∷ []
unfolding media_run media_step remote_file file with_job ensure_job lookup_title start_job finish
    new_job lookup insert allowed new_policy has str_beq job_file is_subtitle_playlist has_prefix
    has_suffix read_file
one_job = refl
