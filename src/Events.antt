-- ===== src/Events.antt =====
-- Events: the broker that feeds subscribers of the framework, and the agent's own event pipeline.
pub mod Broker
pub mod Examples
