-- ===== src/Ingestion.antt =====
-- Ingestion: searches over several providers and what is kept of their answers
-- (application/services/ingestion_pipeline.py, shared/contracts.py).
pub mod Payload
pub mod Dedupe
pub mod Workers
pub mod Run
mod Tests
