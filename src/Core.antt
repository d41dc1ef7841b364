-- ===== src/Core.antt =====
-- The domain model of fixture-core: contexts/fixture-core/internal/domain/fixture.
pub mod Errors
pub mod Slot
pub mod Result
pub mod Match
pub mod Standing
pub mod Group
pub mod Thirds
pub mod Events
pub mod Fixture
