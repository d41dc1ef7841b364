-- ===== src/App.antt =====
-- The command handlers of fixture-core: contexts/fixture-core/internal/application/commands.
pub mod Ports
pub mod Results
pub mod Penalties
pub mod Handlers
pub mod Setup
pub mod System
