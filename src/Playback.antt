-- ===== src/Playback.antt =====
-- internal/playback: reading recorded GOPs, prefetching them, sending their samples as RTP packets,
-- and the sessions of the RTSP server.
pub mod Scale
pub mod Request
pub mod Reader
pub mod Prefetcher
pub mod Sender
pub mod Run
pub mod Session
