-- ===== src/Plugins.antt =====
-- The plugin framework of the core: available capabilities, the manager that starts and stops
-- plugins, and the registry with its provider policies.
pub mod Capabilities
pub mod Manager
pub mod Registry
pub mod Examples
