-- ===== src/Queries.antt =====
-- The queries of fixture-core: contexts/fixture-core/internal/application/queries.
pub mod Dtos
pub mod Handlers
