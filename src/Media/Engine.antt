-- ===== src/Media/Engine.antt =====
-- internal/media/engine.go and service.go: the jobs that produce renditions, one for each Title, and
-- the access check before a remote node reads anything. `T` is the type of a title; what the store
-- and the file system answer is given with each request.
pub mod Jobs
use p2p_hls.Prelude.{
  ℕ, GoString, bytes, Bool, true, false, not, ◌&&◌, if◌then◌else◌, ◌==◌, string_eq, has_prefix,
  has_suffix, trim_prefix, trim_suffix, List, [], ◌∷◌, ◌++◌, Option, none, some, Map, lookup,
  insert,
}
use p2p_hls.Party.Types.{NodeId}
use p2p_hls.Catalog.{Policy, allowed}
use p2p_hls.Peer.Errors.{PeerError, Sentinel, denied, not_found, unavailable, sentinel}
use p2p_hls.Peer.Session.{Result, ok, err}

pub record Job (T : Type 0) : Type 0 where
  pub title : T
  pub complete : Bool

-- `Engine.jobs`
abbrev pub Jobs : Type 0 → Type 0
Jobs T = Map GoString (Job T)

-- What a request meets outside: the store's answer for the Title, the error of `os.MkdirAll`, and the
-- file's bytes, none if it does not exist.
pub record Outside (T : Type 0) : Type 0 where
  pub stored : Result (Option T)
  pub mkdir : Option PeerError
  pub read : Result (Option (List ℕ))

module _ {T : Type 0} where
  unfoldable pub new_job : T → Job T
  new_job title = record { title = title; complete = false }

  -- The jobs, whether one was started, and the job or an error.
  unfoldable pub start_job :
      Jobs T → GoString → T → Option PeerError → Jobs T × Bool × Result (Job T)
  start_job jobs id title (some e) = (jobs, false, err e)
  start_job jobs id title none = (insert id (new_job title) jobs, true, ok (new_job title))

  unfoldable pub lookup_title :
      Jobs T → GoString → Result (Option T) → Option PeerError → Jobs T × Bool × Result (Job T)
  lookup_title jobs id (err e) mkdir = (jobs, false, err e)
  lookup_title jobs id (ok none) mkdir = (jobs, false, err (sentinel not_found))
  lookup_title jobs id (ok (some title)) mkdir = start_job jobs id title mkdir

  unfoldable pub ensure_job : Jobs T → GoString → Outside T → Jobs T × Bool × Result (Job T)
  ensure_job jobs id o = elim (lookup id jobs) [
    | some j ↦ (jobs, false, ok j)
    | none ↦ lookup_title jobs id o.stored o.mkdir
  ]

  -- `runJob` at its end.
  unfoldable pub finish : GoString → Jobs T → Jobs T
  finish id jobs = elim (lookup id jobs) [
    | none ↦ jobs
    | some j ↦ insert id (record j { complete = true }) jobs
  ]

  -- The generators, on which the jobs do not depend: `MasterPlaylist` and `SubtitlePlaylist`
  -- (Media.Master), and `InjectHashes` with the job's hashes (Media.Hash).
  module _ (master : T → List ℕ) (subtitle : GoString → List ℕ) (inject : List ℕ → List ℕ) where
    unfoldable pub read_file : Job T → GoString → Result (Option (List ℕ)) → Result (List ℕ × Bool)
    read_file j name (err e) = err e
    read_file j name (ok none) =
        if j.complete then err (sentinel not_found) else err (sentinel unavailable)
    read_file j name (ok (some content)) =
        ok ((if name == bytes "index.m3u8" then inject content else content), j.complete)

    unfoldable pub is_subtitle_playlist : GoString → Bool
    is_subtitle_playlist name = has_prefix name (bytes "sub_") && has_suffix name (bytes ".m3u8")

    unfoldable pub job_file : Job T → GoString → Result (Option (List ℕ)) → Result (List ℕ × Bool)
    job_file j name read =
        if name == bytes "playlist.m3u8"
        then ok (master j.title, true)
        else (if is_subtitle_playlist name
            then ok (subtitle (trim_suffix (trim_prefix name (bytes "sub_")) (bytes ".m3u8")), true)
            else read_file j name read)

    -- `Engine.File`
    unfoldable pub with_job :
        GoString
        → Result (Option (List ℕ))
        → Jobs T × Bool × Result (Job T)
        → Jobs T × Bool × Result (List ℕ × Bool)
    with_job name read (jobs, started, err e) = (jobs, started, err e)
    with_job name read (jobs, started, ok j) = (jobs, started, job_file j name read)

    unfoldable pub file :
        Jobs T → GoString → GoString → Outside T → Jobs T × Bool × Result (List ℕ × Bool)
    file jobs id name o = with_job name o.read (ensure_job jobs id o)

    -- `Service.Playlist` and `Service.Segment`, before they take what they return from the bytes; a
    -- node that is not allowed gets nothing.
    unfoldable pub remote_file :
        Policy
        → NodeId
        → Jobs T
        → GoString
        → GoString
        → Outside T
        → Jobs T × Bool × Result (List ℕ × Bool)
    remote_file policy remote jobs id name o =
        if not (allowed policy remote)
        then (jobs, false, err (sentinel denied))
        else file jobs id name o

-- `contentType`
unfoldable pub content_type : GoString → GoString
content_type name =
    if has_suffix name (bytes ".m3u8")
    then bytes "application/vnd.apple.mpegurl"
    else (if has_suffix name (bytes ".ts")
        then bytes "video/mp2t"
        else (if has_suffix name (bytes ".vtt")
            then bytes "text/vtt"
            else bytes "application/octet-stream"))
