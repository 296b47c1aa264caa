-- ===== src/Tests.antt =====
-- Concrete inputs, and what the theorems say of them.
mod Fixtures
mod Syncs
mod Databases
mod Services
mod Texts
mod Web
mod Client
mod Start
mod Flushes
mod Uploads
