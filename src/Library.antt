-- ===== src/Library.antt =====
-- internal/library/metadata.go, with the records of probe.go: what is indexed of a media file.
-- The base and the extension of a path, and the entries of its directory, are given.
use p2p_hls.Prelude.{
  ℕ, ℤ, pos, negsuc, GoString, bytes, to_lower, Bool, true, false, not, ◌&&◌, ◌||◌, if◌then◌else◌,
  eqb, ◌==◌, string_eq, has, has_prefix, trim_prefix, trim_suffix, List, [], ◌∷◌, ◌++◌, map,
}
use mathlib.Core.List.{reverse}
use p2p_hls.Swarm.Integrity.{is_blank}

pub record VideoStream : Type 0 where
  pub codec : GoString
  pub width : ℕ
  pub height : ℕ

pub record SubStream : Type 0 where
  pub index : ℕ
  pub codec : GoString
  pub language : GoString

-- The audio streams are their codecs.
pub record Probe : Type 0 where
  pub duration_ms : ℕ
  pub container : GoString
  pub video : List VideoStream
  pub audio : List GoString
  pub subtitles : List SubStream

pub record SubtitleTrack : Type 0 where
  pub id : GoString
  pub language : GoString
  pub label : GoString
  pub kind : GoString
  pub source : GoString
  pub index : ℤ

pub record Title : Type 0 where
  pub content_id : GoString
  pub path : GoString
  pub display_title : GoString
  pub size : ℕ
  pub mod_unix : ℕ
  pub duration_ms : ℕ
  pub container : GoString
  pub video_codec : GoString
  pub audio_codecs : List GoString
  pub width : ℕ
  pub height : ℕ
  pub hls_compatible : Bool
  pub subtitles : List SubtitleTrack

abbrev pub text_sub_codecs : List GoString
text_sub_codecs =
    bytes "subrip"
    ∷ bytes "srt"
    ∷ bytes "ass"
    ∷ bytes "ssa"
    ∷ bytes "webvtt"
    ∷ bytes "vtt"
    ∷ bytes "mov_text"
    ∷ bytes "text"
    ∷ []

unfoldable pub sub_kind : GoString → GoString
sub_kind codec = if has (to_lower codec) text_sub_codecs then bytes "text" else bytes "image"

unfoldable pub is_hls_codecs : GoString → GoString → Bool
is_hls_codecs v a =
    (v == bytes "h264" || v == bytes "avc1") && (a == bytes "aac" || a == bytes "mp3")

-- No video or no audio stream is not compatible.
unfoldable pub is_hls_streams : List VideoStream → List GoString → Bool
is_hls_streams [] audio = false
is_hls_streams (v ∷ vs) [] = false
is_hls_streams (v ∷ vs) (a ∷ as_) = is_hls_codecs (to_lower v.codec) (to_lower a)

unfoldable pub is_hls_compatible : Probe → Bool
is_hls_compatible p = is_hls_streams p.video p.audio

unfoldable pub first_codec : List VideoStream → GoString
first_codec [] = []
first_codec (v ∷ r) = v.codec

unfoldable pub first_video_width : List VideoStream → ℕ
first_video_width [] = 0
first_video_width (v ∷ r) = v.width

unfoldable pub first_video_height : List VideoStream → ℕ
first_video_height [] = 0
first_video_height (v ∷ r) = v.height

-- `strings.Fields` and `strings.Join` with a space: the reversed word so far, and whether words came
-- before it.
unfoldable pub end_word : Bool → GoString → GoString
end_word any [] = []
end_word any (c ∷ w) = (if any then bytes " " else []) ++ reverse (c ∷ w)

unfoldable pub fields_from : Bool → GoString → GoString → GoString
fields_from any word [] = end_word any word
fields_from any word (c ∷ s) = elim (is_blank c) [
  | true ↦ end_word any word ++ fields_from (any || not (word == [])) [] s
  | false ↦ fields_from any (c ∷ word) s
]

unfoldable pub display_title_from_path : GoString → GoString → GoString
display_title_from_path base ext =
    fields_from false [] (map (λ c. if eqb c 46 || eqb c 95 then 32 else c) (trim_suffix base ext))

-- `digits` is `strconv.Itoa`.
unfoldable pub embedded_track : (ℕ → GoString) → SubStream → SubtitleTrack
embedded_track digits s = record {
  id = bytes "embedded:" ++ digits s.index;
  language = s.language;
  label = s.language;
  kind = sub_kind s.codec;
  source = [];
  index = pos s.index;
}

-- `BuildTitle`, with the tracks that `scanSidecarSubs` found; the time of adding is left out.
unfoldable pub build_title :
    (ℕ → GoString)
    → GoString
    → GoString
    → GoString
    → Probe
    → GoString
    → ℕ
    → ℕ
    → List SubtitleTrack
    → Title
build_title digits path base ext p content_id size mod_unix sidecars = record {
  content_id = content_id;
  path = path;
  display_title = display_title_from_path base ext;
  size = size;
  mod_unix = mod_unix;
  duration_ms = p.duration_ms;
  container = p.container;
  video_codec = first_codec p.video;
  audio_codecs = p.audio;
  width = first_video_width p.video;
  height = first_video_height p.video;
  hls_compatible = is_hls_compatible p;
  subtitles = map (embedded_track digits) p.subtitles ++ sidecars;
}

abbrev pub sidecar_exts : List GoString
sidecar_exts = bytes ".srt" ∷ bytes ".ass" ∷ bytes ".vtt" ∷ bytes ".ssa" ∷ []

-- `strings.Trim(s, ".")`
unfoldable pub trim_dots_left : GoString → GoString
trim_dots_left [] = []
trim_dots_left (c ∷ s) = elim (eqb c 46) [ true ↦ trim_dots_left s | false ↦ c ∷ s ]

unfoldable pub or_und : GoString → GoString
or_und [] = bytes "und"
or_und (c ∷ s) = c ∷ s

unfoldable pub sidecar_language : GoString → GoString → GoString
sidecar_language base stem =
    or_und (reverse (trim_dots_left (reverse (trim_dots_left (trim_prefix stem base)))))

unfoldable pub sidecar_track : GoString → GoString → SubtitleTrack
sidecar_track lang source = record {
  id = bytes "sidecar:" ++ lang;
  language = lang;
  label = lang;
  kind = bytes "text";
  source = source;
  index = negsuc 0;
}

-- Whether a stem belongs to the video: its own, or with a part after a dot.
unfoldable pub is_stem_of : GoString → GoString → Bool
is_stem_of base stem = stem == base || has_prefix stem (base ++ bytes ".")

-- The loop of `scanSidecarSubs` over the directory's names; `ext` is `filepath.Ext`, `in_dir` joins the
-- directory and a name, and `base` is the video's name without its extension.
unfoldable pub scan_sidecar_subs :
    (GoString → GoString) → (GoString → GoString) → GoString → List GoString → List SubtitleTrack
scan_sidecar_subs ext in_dir base [] = []
scan_sidecar_subs ext in_dir base (name ∷ r) =
    let stem = trim_suffix name (ext name) in
    let rest = scan_sidecar_subs ext in_dir base r in
    if has (to_lower (ext name)) sidecar_exts && is_stem_of base stem
    then sidecar_track (sidecar_language base stem) (in_dir name) ∷ rest
    else rest
