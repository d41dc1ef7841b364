-- ===== src/Ingest.antt =====
-- The result-ingestion context, contexts/result-ingestion, and the consumer in fixture-core that takes
-- its events: contexts/fixture-core/internal/infrastructure/nats/result_consumer.go.
pub mod Result
pub mod Handler
pub mod Consumer
pub mod Idempotence
pub mod Pipeline
