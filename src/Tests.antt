-- ===== src/Tests.antt =====
-- Concrete inputs, and the theorems at them.
mod Cluster
mod Registries
mod RegistryScans
mod Schedules
mod Servers
pub mod Fixtures
pub mod Cache
mod Queues
mod Requests
mod Pods
mod Events
mod Webhooks
mod Continuous
mod Commands
mod Scopes
mod Scans
mod Services
