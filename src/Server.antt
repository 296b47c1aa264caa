-- ===== src/Server.antt =====
-- server/: the tfws process.
pub mod Outcome
pub mod Database
pub mod Watcher
pub mod Flush
pub mod Ssh
pub mod Machine
pub mod Redirection
pub mod Interceptor
pub mod Config
pub mod Web
pub mod App
