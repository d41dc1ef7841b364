-- ===== src/Venue.antt =====
-- Venues and the distances between them: contexts/venue-geo.
pub mod Geo
pub mod Distance
pub mod Matrix
pub mod Queries
pub mod Http
