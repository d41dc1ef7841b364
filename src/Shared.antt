-- ===== src/Shared.antt =====
-- The packages that all contexts share: shared/pkg.
pub mod AppErrors
pub mod Pagination
pub mod Http
