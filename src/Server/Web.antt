-- ===== src/Server/Web.antt =====
-- server/web: the sessions, the login by OIDC, uploads, and the pages and actions.
pub mod Sessions
pub mod Auth
pub mod Upload
pub mod Http
pub mod Services
pub mod Watchers
pub mod Actions
pub mod Machines
pub mod Routes
