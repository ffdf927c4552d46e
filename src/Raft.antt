-- ===== src/Raft.antt =====
-- internal/daemon/raftstore: commands, the FSM that applies them, and proposing as a client sees it.
pub mod Fsm
pub mod Applied
pub mod World
pub mod Replay
pub mod Rules
pub mod Frames
