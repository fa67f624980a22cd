-- ===== src/ContinuousScanning.antt =====
-- continuousscanning: which resources are watched, and what their events do.
pub mod Watches
pub mod Targets
pub mod Handlers
