-- ===== src/Watcher.antt =====
-- watcher: the watches on pods, SBOMs, application profiles and operator commands, and the queue
-- that delays and merges their events.
pub mod Event
pub mod Cooldown
pub mod Pod
pub mod Feeds
pub mod Retry
pub mod Sbom
pub mod Profiles
pub mod Commands
pub mod Registry
