-- ===== src/Experiments.antt =====
-- baseplate/lib/experiments: experiment configurations, targeting, variant sets and bucketing.
pub mod Lower
pub mod Value
pub mod Order
pub mod Targeting
pub mod VariantSets
pub mod SimpleExperiment
pub mod Dict
pub mod R2
pub mod Providers
pub mod Client
mod Tests
