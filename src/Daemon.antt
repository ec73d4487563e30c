-- ===== src/Daemon.antt =====
-- daemonServer/: the daemon that registers the servers and hands push tasks to the producers.
pub mod State
pub mod Balance
pub mod Registry
pub mod Dispatch
pub mod Replies
pub mod Alive
pub mod Invariant
pub mod Queue
