-- ===== src/Team.antt =====
-- National teams and confederations: contexts/team-registry.
pub mod Domain
pub mod Queries
pub mod Found
