-- ===== src/Server/Watcher/Locks.antt =====
-- server/watcher/service.go: tryAcquireSyncLock over the map `syncLocks`. An entry is a name with
-- whether its mutex is locked; entries are created on first use and never removed.
pub mod Laws
pub mod Exclusion
use tiny_file_watcher.Prelude.{
  String, Bool, true, false, List, [], ◌∷◌, ◌++◌, ◌==◌, ◌&&◌, any, map, if◌then◌else◌,
  string_comparable,
}

abbrev pub LockTable : Type 0
LockTable = List (String × Bool)

abbrev is_entry : String → String × Bool → Bool
is_entry name (k, b) = k == name

abbrev locked_entry : String → String × Bool → Bool
locked_entry name (k, b) = k == name && b

-- the mutex of that name is locked
abbrev pub is_locked : String → LockTable → Bool
is_locked name t = any (locked_entry name) t

-- LoadOrStore
unfoldable pub load_or_store : String → LockTable → LockTable
load_or_store name t = if any (is_entry name) t then t else (name, false) ∷ t

abbrev set_entry : String → Bool → String × Bool → String × Bool
set_entry name b (k, c) = (k, if k == name then b else c)

-- Lock and Unlock of the mutex of that name
unfoldable pub set_lock : String → Bool → LockTable → LockTable
set_lock name b t = map (set_entry name b) t

unfoldable pub try_acquire_sync_lock : String → LockTable → Bool × LockTable
unfolding load_or_store set_lock
try_acquire_sync_lock name t =
    let stored = load_or_store name t in
    if is_locked name stored then (false, stored) else (true, set_lock name true stored)
