-- ===== src/Server/Flush.antt =====
-- server/flush: the job that copies the pending files and the gRPC service above it.
pub mod Transfer
pub mod Job
pub mod Service
pub mod Dialer
pub mod Success
pub mod Reliable
pub mod Journal
pub mod Connections
