-- ===== src/Http.antt =====
-- The HTTP side of fixture-core: contexts/fixture-core/internal/infrastructure/http.
pub mod Requests
pub mod Handlers
pub mod Laws
