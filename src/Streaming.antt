-- ===== src/Streaming.antt =====
-- The streaming domain: sessions, their repository, the lifecycle policy and the start of a stream.
pub mod Session
pub mod Repository
pub mod Lifecycle
pub mod Gate
pub mod Services
pub mod Start
pub mod Closing
pub mod End
pub mod Selections
pub mod Opening
pub mod Examples
