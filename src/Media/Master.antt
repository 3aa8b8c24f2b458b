-- ===== src/Media/Master.antt =====
-- internal/media/master.go: the playlists that are generated. `digits` is `%d`.
use p2p_hls.Prelude.{ℕ, GoString, bytes, Bool, true, false, if◌then◌else◌, List, [], ◌∷◌, ◌++◌}
use p2p_hls.Library.{Title, SubtitleTrack}
use p2p_hls.Media.Ffmpeg.{text_subtitle_tracks}

abbrev pub line : GoString → GoString
line s = s ++ (10 ∷ [])

abbrev pub quoted : GoString → GoString
quoted s = (34 ∷ s) ++ (34 ∷ [])

-- One text track; the first is the default.
unfoldable pub media_tag : Bool → SubtitleTrack → GoString
media_tag is_first sub = line (
    bytes "#EXT-X-MEDIA:TYPE=SUBTITLES,GROUP-ID="
    ++ (quoted (bytes "subs")
        ++ (bytes ",NAME="
            ++ (quoted sub.language
                ++ (bytes ",LANGUAGE="
                    ++ (quoted sub.language
                        ++ (bytes ",DEFAULT="
                            ++ ((if is_first then bytes "YES" else bytes "NO")
                                ++ (bytes ",AUTOSELECT=YES,URI="
                                    ++ quoted
                                        (bytes "sub_" ++ (sub.language ++ bytes ".m3u8")))))))))))

unfoldable pub media_tags : Bool → List SubtitleTrack → GoString
media_tags is_first [] = []
media_tags is_first (sub ∷ r) = media_tag is_first sub ++ media_tags false r

unfoldable pub stream_subtitles : List SubtitleTrack → GoString
stream_subtitles [] = []
stream_subtitles (sub ∷ r) = bytes ",SUBTITLES=" ++ quoted (bytes "subs")

unfoldable pub master_playlist : (ℕ → GoString) → Title → GoString
master_playlist digits title =
    let texts = text_subtitle_tracks title.subtitles in
    line (bytes "#EXTM3U")
    ++ (line (bytes "#EXT-X-VERSION:3")
        ++ (media_tags true texts
            ++ (line (
                  bytes "#EXT-X-STREAM-INF:BANDWIDTH=6000000,RESOLUTION="
                  ++ (digits title.width
                      ++ (bytes "x" ++ (digits title.height ++ stream_subtitles texts))))
                ++ line (bytes "index.m3u8"))))

unfoldable pub subtitle_playlist : GoString → GoString
subtitle_playlist language =
    line (bytes "#EXTM3U")
    ++ (line (bytes "#EXT-X-VERSION:3")
        ++ (line (bytes "#EXT-X-TARGETDURATION:99999")
            ++ (line (bytes "#EXT-X-MEDIA-SEQUENCE:0")
                ++ (line (bytes "#EXT-X-PLAYLIST-TYPE:VOD")
                    ++ (line (bytes "#EXTINF:99999.0,")
                        ++ (line (bytes "sub_" ++ (language ++ bytes ".vtt"))
                            ++ line (bytes "#EXT-X-ENDLIST")))))))
