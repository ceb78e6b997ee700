-- ===== src/AutoDownload.antt =====
-- application/services: the automatic download of the next episodes of an anime.
pub mod Matching
pub mod Preference
pub mod Episodes
pub mod Candidate
pub mod Catchup
mod Tests
