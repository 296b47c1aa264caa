-- ===== src/Client.antt =====
-- client/: the tfw command line client.
pub mod Config
pub mod Credentials
pub mod Tokens
pub mod Terminal
pub mod Rpc
pub mod Cmd
