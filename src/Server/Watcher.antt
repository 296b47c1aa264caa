-- ===== src/Server/Watcher.antt =====
-- server/watcher: the rules of .tfwignore, the walk, the sync job, the locks and the gRPC service.
pub mod Ignore
pub mod Walk
pub mod Sync
pub mod Locks
pub mod Service
pub mod Streaming
pub mod Remote
