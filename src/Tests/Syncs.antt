-- ===== src/Tests/Syncs.antt =====
-- The theorems on the walk, the sync, the locks and the service of watchers, on concrete inputs.
use tiny_file_watcher.Prelude.{
  ◌≤◌, ◌≡◌, String, true, false, not, ◌&&◌, some, [], ◌∷◌, any, nat_eq, string_comparable,
}
use tiny_file_watcher.Internal.Set
use tiny_file_watcher.Internal.Set.{contains}
use tiny_file_watcher.Server.Outcome.{ok}
use tiny_file_watcher.Server.Watcher.Walk.{failed, RemoteFs, Walk, handle_current_paths}
use tiny_file_watcher.Server.Watcher.Walk.Coverage.{handle_current_paths_lem}
use tiny_file_watcher.Server.Watcher.Walk.Sets.{accepts}
use tiny_file_watcher.Server.Watcher.Locks.{try_acquire_sync_lock, is_locked}
use tiny_file_watcher.Server.Watcher.Locks.Exclusion.{
  System, start, arrives, arrive, running, Reachable-excludes,
}
use tiny_file_watcher.Server.Watcher.Sync.Updates.{job_on}
use tiny_file_watcher.Server.Watcher.Service.{Guarded, sync_watcher, stream_sync_watcher}
use tiny_file_watcher.Server.Watcher.Service.Requests.{sync-releases}
use tiny_file_watcher.Server.Database.{Db}
use tiny_file_watcher.Server.Watcher.Service.Creation.{db_service}
use tiny_file_watcher.Tests.Fixtures.{no_rules, tree, tree-IsTree, docs, db}

-- a machine on which the source path cannot be read
abbrev unreadable : RemoteFs
unreadable = record tree { walk = λ path. failed path ∷ [] }

handle_current_paths_lem_example :
    (r : Walk) × (handle_current_paths (job_on no_rules docs tree db.files) ≡ some r)
    × ((p : String)
        → contains r.on_disk p
          ≡ any (accepts (job_on no_rules docs tree db.files) p) (tree.walk "/srv"))
    × ((p : String)
        → contains r.added p
          ≡ any (accepts (job_on no_rules docs tree db.files) p) (tree.walk "/srv")
            && not (contains (job_on no_rules docs tree db.files).watched p))
handle_current_paths_lem_example =
    handle_current_paths_lem (job_on no_rules docs tree db.files) tree-IsTree

-- two requests for one watcher at once
abbrev twice : System
twice = arrive "docs" (arrive "docs" (record { locks = []; requests = [] }))

Reachable-excludes_example :
    (running "docs" twice.requests ≤ 1)
    × ((try_acquire_sync_lock "docs" twice.locks).0 ≡ nat_eq (running "docs" twice.requests) 0)
Reachable-excludes_example =
    Reachable-excludes twice "docs" (arrives _ "docs" (arrives _ "docs" start))

sync-releases_example :
    (is_locked "docs"
        (sync_watcher
          (db_service (λ m. ok tree) no_rules (λ e s. (ok tt, s)))
          "docs"
          (record { rows = db; locks = [] })).1.locks
      ≡ false)
    × (is_locked "docs"
          (stream_sync_watcher
            (db_service (λ m. ok tree) no_rules (λ e s. (ok tt, s)))
            "docs"
            (record { rows = db; locks = [] })).1.locks
        ≡ false)
sync-releases_example =
    sync-releases (db_service (λ m. ok tree) no_rules (λ e s. (ok tt, s))) "docs"
      (record { rows = db; locks = [] }) "docs"

-- a sync of the watcher runs
abbrev busy : Guarded Db
busy = record { rows = db; locks = ("docs", true) ∷ [] }
