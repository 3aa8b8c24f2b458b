-- ===== src/Media/Ffmpeg/Copies.antt =====
-- The Titles that are marked as compatible are those that need no transcoding.
use p2p_hls.Prelude.{
  ℕ, ◌≡◌, ◌↔◌, refl, sym, ◌∙◌, GoString, to_lower, Bool, true, false, ◌&&◌, string_eq, str_beq,
  List, [], ◌∷◌, Bool-cases, inl, inr, arith,
}
use p2p_hls.Library.{
  VideoStream, Probe, Title, SubtitleTrack, build_title, is_hls_compatible, is_hls_streams,
  is_hls_codecs, first_codec,
}
use p2p_hls.Media.Ffmpeg.{
  video_copyable, audio_copyable, copy_video, copy_audio, video_args, audio_args, primary_audio,
}

video_args-copy : (t : Title) → (video_args t ≡ copy_video) ↔ (video_copyable t.video_codec ≡ true)
unfolding video_args
video_args-copy t = elim (Bool-cases (video_copyable t.video_codec)) [
  | inl q ↦ rw (q, video_args) ((λ e. refl), (λ e. refl))
  | inr q ↦ rw (q, video_args) ((λ e. ground arith), (λ e. ground arith))
]

audio_args-copy :
    (t : Title)
    → (audio_args t ≡ copy_audio) ↔ (audio_copyable (primary_audio t.audio_codecs) ≡ true)
unfolding audio_args
audio_args-copy t = elim (Bool-cases (audio_copyable (primary_audio t.audio_codecs))) [
  | inl q ↦ rw (q, audio_args) ((λ e. refl), (λ e. refl))
  | inr q ↦ rw (q, audio_args) ((λ e. ground arith), (λ e. ground arith))
]

and_false : (b : Bool) → false ≡ (b && false)
and_false true = refl
and_false false = refl

streams-copyable :
    (video : List VideoStream) (audio : List GoString)
    → is_hls_streams video audio
      ≡ (video_copyable (first_codec video) && audio_copyable (primary_audio audio))
unfolding is_hls_streams video_copyable audio_copyable first_codec primary_audio is_hls_codecs
    to_lower str_beq
streams-copyable [] audio = refl
streams-copyable (v ∷ vs) [] = and_false (video_copyable v.codec)
streams-copyable (v ∷ vs) (a ∷ r) = refl

-- A Title that `BuildTitle` makes of any probe is marked as compatible with HLS exactly if `FFmpegArgs`
-- copies both its video and its audio: the rule of the library, which looks at the first streams of
-- the probe, and that of the encoder, which looks at the codecs of the Title, are the same rule, for
-- files without a video or an audio stream too.
pub build_title-copies :
    (digits : ℕ → GoString) (path base ext : GoString) (p : Probe) (content_id : GoString)
    (size mod_unix : ℕ) (sidecars : List SubtitleTrack)
    → (let t = build_title digits path base ext p content_id size mod_unix sidecars in
        (t.hls_compatible ≡ true) ↔ ((video_args t ≡ copy_video) × (audio_args t ≡ copy_audio)))
unfolding build_title is_hls_compatible
build_title-copies digits path base ext p content_id size mod_unix sidecars =
    let t = build_title digits path base ext p content_id size mod_unix sidecars in
    let v = video_args-copy t in
    let a = audio_args-copy t in
    let s = streams-copyable p.video p.audio in
    (
      (λ h. let b = sym s ∙ h in (v.1 (ground arith), a.1 (ground arith))),
      (λ h. let x = v.0 h.0 in let y = a.0 h.1 in s ∙ ground arith),
    )
