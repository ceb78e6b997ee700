-- ===== src/Playback.antt =====
-- application/playback: HLS playback sessions. Times are whole milliseconds.
pub mod Contract
pub mod Resume
pub mod Playlist
pub mod Segments
pub mod Tokens
pub mod Service
pub mod Create
pub mod Requests
mod Tests
