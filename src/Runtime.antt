-- ===== src/Runtime.antt =====
-- The runtime: the planned activities and the events on their way to it.
pub mod PlannedQueue
pub mod Events
pub mod Examples
