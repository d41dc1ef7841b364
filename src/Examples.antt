-- ===== src/Examples.antt =====
-- Concrete data of the program, the tests on it, and the theorems applied to it.
mod Data
mod Domain
mod Stage
mod Service
mod Ingestion
mod Reads
mod Notices
mod Storage
