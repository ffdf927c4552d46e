-- ===== src/State.antt =====
-- internal/state: the replicated cluster state in memory.
pub mod Types
pub mod Store
pub mod Kv
pub mod Index
