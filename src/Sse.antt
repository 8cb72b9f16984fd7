-- ===== src/Sse.antt =====
-- The package sse: the hub of connections and the replay of missed events.
pub mod Hub
pub mod Replay
