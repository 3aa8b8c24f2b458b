-- ===== src/Media/Ffmpeg.antt =====
-- internal/media/ffmpeg.go and subtitles.go: the arguments of ffmpeg.
-- `in_dir` is `filepath.Join` with the output directory, `digits` is `strconv.Itoa`.
pub mod Copies
use p2p_hls.Prelude.{
  ℕ, ℤ, pos, negsuc, GoString, bytes, to_lower, Bool, ◌||◌, if◌then◌else◌, ◌==◌, string_eq, List,
  [], ◌∷◌, ◌++◌, select,
}
use p2p_hls.Library.{Title, SubtitleTrack}

unfoldable pub video_copyable : GoString → Bool
video_copyable codec = let c = to_lower codec in c == bytes "h264" || c == bytes "avc1"

unfoldable pub audio_copyable : GoString → Bool
audio_copyable codec = let c = to_lower codec in c == bytes "aac" || c == bytes "mp3"

abbrev pub copy_video : List GoString
copy_video = bytes "-c:v" ∷ bytes "copy" ∷ []

abbrev pub copy_audio : List GoString
copy_audio = bytes "-c:a" ∷ bytes "copy" ∷ []

unfoldable pub video_args : Title → List GoString
video_args title =
    if video_copyable title.video_codec
    then copy_video
    else bytes "-c:v"
      ∷ bytes "libx264"
      ∷ bytes "-profile:v"
      ∷ bytes "high"
      ∷ bytes "-preset"
      ∷ bytes "veryfast"
      ∷ bytes "-crf"
      ∷ bytes "23"
      ∷ bytes "-maxrate"
      ∷ bytes "8M"
      ∷ bytes "-bufsize"
      ∷ bytes "16M"
      ∷ bytes "-vf"
      ∷ bytes "scale=-2:'min(1080,ih)'"
      ∷ bytes "-force_key_frames"
      ∷ bytes "expr:gte(t,n_forced*4)"
      ∷ []

unfoldable pub primary_audio : List GoString → GoString
primary_audio [] = []
primary_audio (a ∷ r) = a

unfoldable pub audio_args : Title → List GoString
audio_args title =
    if audio_copyable (primary_audio title.audio_codecs)
    then copy_audio
    else bytes "-c:a" ∷ bytes "aac" ∷ bytes "-ac" ∷ bytes "2" ∷ bytes "-b:a" ∷ bytes "160k" ∷ []

unfoldable pub ffmpeg_args : (GoString → GoString) → Title → GoString → List GoString
ffmpeg_args in_dir title playlist_path =
    (bytes "-y" ∷ bytes "-i" ∷ title.path ∷ [])
    ++ (video_args title
        ++ (audio_args title
            ++ (bytes "-f"
                ∷ bytes "hls"
                ∷ bytes "-hls_time"
                ∷ bytes "4"
                ∷ bytes "-hls_playlist_type"
                ∷ bytes "event"
                ∷ bytes "-hls_segment_filename"
                ∷ in_dir (bytes "seg%05d.ts")
                ∷ playlist_path
                ∷ [])))

unfoldable pub text_subtitle_tracks : List SubtitleTrack → List SubtitleTrack
text_subtitle_tracks = select (λ s. s.kind == bytes "text")

unfoldable pub track_source : (ℕ → GoString) → Title → SubtitleTrack → ℤ → GoString → List GoString
track_source digits title track (pos n) out =
    bytes "-y"
    ∷ bytes "-i"
    ∷ title.path
    ∷ bytes "-map"
    ∷ (bytes "0:" ++ digits n)
    ∷ bytes "-c:s"
    ∷ bytes "webvtt"
    ∷ out
    ∷ []
track_source digits title track (negsuc n) out =
    bytes "-y" ∷ bytes "-i" ∷ track.source ∷ bytes "-c:s" ∷ bytes "webvtt" ∷ out ∷ []

unfoldable pub extract_vtt_args : (ℕ → GoString) → Title → SubtitleTrack → GoString → List GoString
extract_vtt_args digits title track out = track_source digits title track track.index out
