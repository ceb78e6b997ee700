-- ===== src/Catalog.antt =====
-- The catalogue: which id an anime has, the merging of two rows that turn out to be one anime, and the row of
-- a provider's external ids (domain/catalog.py, adapters/persistence/catalog_repository.py,
-- application/services/catalog_identity.py).
pub mod Ids
pub mod Tables
pub mod Repoint
pub mod Merge
pub mod Index
pub mod Identity
pub mod Batch
mod Tests
