-- ===== src/Games.antt =====
-- The games: the engine that runs one session at a time, and the rules of shiritori.
pub mod Shiritori
pub mod Session
pub mod Engine
pub mod Examples
