-- ===== src/Sidecars.antt =====
-- baseplate/sidecars: the batches of the publishers, and the publishers themselves.
pub mod Batch
pub mod RawJson
pub mod V2
pub mod TimeLimited
pub mod Worker
pub mod Post
pub mod EventPublisher
pub mod TracePublisher
pub mod Events
pub mod Traces
mod Tests
