-- ===== src/Client/Cmd.antt =====
-- client/cmd: the commands of tfw.
pub mod Watcher
pub mod Sync
pub mod Flush
pub mod Machine
pub mod Redirection
pub mod Login
pub mod Root
