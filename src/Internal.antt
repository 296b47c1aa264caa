-- ===== src/Internal.antt =====
-- internal: the set, and what Go's path/filepath and strconv compute.
pub mod Set
pub mod FilePath
pub mod Strconv
pub mod TfwPath
