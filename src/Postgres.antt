-- ===== src/Postgres.antt =====
-- The PostgreSQL side of fixture-core: contexts/fixture-core/internal/infrastructure/postgres. A
-- table is a list of rows, and a query is what its SQL text means on such lists.
pub mod Where
pub mod Matches
pub mod Pages
pub mod Tables
pub mod Save
pub mod Atomic
pub mod Stored
pub mod Written
pub mod Snapshot
