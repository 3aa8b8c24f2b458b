-- ===== src/Media.antt =====
-- internal/media: the jobs that produce renditions, the playlists, the hashes that they publish, and
-- the cache.
pub mod Cache
pub mod Hash
pub mod Engine
pub mod Ffmpeg
pub mod Master
