-- ===== src/Downloads.antt =====
-- application/services/download_manager.py: which downloads are queued, running, cancelled.
pub mod Hashes
pub mod Status
pub mod Manager
mod Tests
