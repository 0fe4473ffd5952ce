-- ===== src/Raft.antt =====
-- daemon_raft.c: how the server replicates its operations.
pub mod Wire
pub mod Ring
pub mod Net
pub mod Apply
pub mod Handles
pub mod Replicate
pub mod Peers
