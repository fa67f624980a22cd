-- ===== src/Utils.antt =====
-- utils: the types that the other packages share, and the helpers over pods, application profiles
-- and the status of operator commands.
pub mod Types
pub mod Images
pub mod Profile
pub mod Status
