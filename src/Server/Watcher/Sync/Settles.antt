-- ===== src/Server/Watcher/Sync/Settles.antt =====
-- server/watcher/sync.go: the run of a job on the database.
use tiny_file_watcher.Prelude.{string_comparable}
use tiny_file_watcher.Internal.Set
use tiny_file_watcher.Internal.Set.{Set, contains}
use tiny_file_watcher.Server.Watcher.Walk.{Visit, failed, dir, file}

-- entries that could not be read
abbrev pub IsFailed : Visit → Type 0
IsFailed (failed path) = Unit
IsFailed (dir path) = ⊥
IsFailed (file path name) = ⊥
