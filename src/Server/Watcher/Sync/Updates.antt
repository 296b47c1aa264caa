-- ===== src/Server/Watcher/Sync/Updates.antt =====
-- server/watcher/sync.go: what a run does to the database, as one equation.
use tiny_file_watcher.Prelude.{
  ◌≡◌, refl, sym, ap, ◌∙◌, String, Bool, true, not, some, List, [], ◌∷◌, ◌++◌, map, any, keep,
  length, keep_all, All_of, arith, Bool-cases, inl, inr, nat_eq, string_comparable,
}
use tiny_file_watcher.Internal.Set
use tiny_file_watcher.Internal.Set.{Set}
use tiny_file_watcher.Internal.Set.Valid.{IsValid}
use tiny_file_watcher.Server.Outcome.{Result, ok, err}
use tiny_file_watcher.Server.Database.{FileWatcher, WatchedRow, Db, next_id, has_watcher}
use tiny_file_watcher.Server.Database.Files.{
  insert_rows, is_file_of, bulk_add_watched_files, bulk_remove_watched_files, list_watched_files,
}
use tiny_file_watcher.Server.Database.Repositories.{db_file_repository}
use tiny_file_watcher.Server.Watcher.Ignore.{Ignorer, OpenError}
use tiny_file_watcher.Server.Watcher.Walk.{RemoteFs, Walk, Job, handle_current_paths}
use tiny_file_watcher.Server.Watcher.Sync.{
  SyncJob, SyncResult, int32, removed_of, log, log_failure, open_remote_fs, save_added,
  save_removed, save_updates, rules, walk_job, run,
}
use tiny_file_watcher.Server.Watcher.Sync.Rows.{listed}

-- a job on the database with no callback, over a connection that stands
abbrev pub db_job : FileWatcher → RemoteFs → SyncJob Db
db_job w rfs = record {
  watcher = w;
  remote = ok rfs;
  file_repository = db_file_repository;
  on_log = λ msg db. db;
}

-- the rows after the new paths are inserted
abbrev pub with_added : String → Set String → Bool → Db → List WatchedRow
with_added name added flush db =
    db.files
    ++ insert_rows (next_id (map (λ (f : WatchedRow). f.id) db.files)) name flush db.clock
        (Set.items added)

-- the rows of `fs` without those of the removed paths
abbrev pub without : String → List String → List WatchedRow → List WatchedRow
without name removed fs = keep (λ f. not (any (λ p. is_file_of name p f) removed)) fs

-- what a run returns
abbrev pub result_of : Walk → List String → SyncResult
result_of walked removed = record {
  added_count = int32 (Set.size walked.added);
  removed_count = int32 (length removed);
  added_files = walked.added;
  removed_files = removed;
}

pub append-[] : (fs : List WatchedRow) → fs ++ [] ≡ fs
append-[] [] = refl
append-[] (f ∷ fs) = ap (◌∷◌ f) (append-[] fs)

nil_of_length : (ks : List String) → length ks ≡ 0 → ks ≡ []
nil_of_length [] h = refl
nil_of_length (k ∷ ks) h = absurd (omega (arith, h))

items_empty : (s : Set String) → IsValid s → Set.size s ≡ 0 → Set.items s ≡ []
unfolding Set.size Set.items
items_empty s v h = nil_of_length s.keys (sym v.counted ∙ h)

save_added_lem :
    (w : FileWatcher) (rfs : RemoteFs) (added : Set String) (flush : Bool) (db : Db)
    → IsValid added
    → has_watcher w.name db.watchers ≡ true
    → save_added (db_job w rfs) added flush db
      ≡ (ok tt, record db { files = with_added w.name added flush db })
unfolding save_added bulk_add_watched_files insert_rows
save_added_lem w rfs added flush db v h = elim (Bool-cases (nat_eq (Set.size added) 0)) [
  | inl e ↦ rw (e, items_empty added v (ground arith), append-[] db.files) refl
  | inr e ↦ rw (e, e, h) refl
]

save_removed_lem :
    (w : FileWatcher) (rfs : RemoteFs) (removed : List String) (db : Db)
    → save_removed (db_job w rfs) removed db
      ≡ (ok tt, record db { files = without w.name removed db.files })
unfolding save_removed bulk_remove_watched_files
save_removed_lem w rfs [] db =
    rw (keep_all (λ (f : WatchedRow). true) db.files (All_of _ db.files (λ f. refl))) refl
save_removed_lem w rfs (p ∷ ps) db = refl

module _ (compile : List String → String → Bool) (w : FileWatcher) (rfs : RemoteFs) where
  -- the walk of the job that stands on these rows
  abbrev pub job_on : List WatchedRow → Job
  job_on fs = walk_job compile (db_job w rfs) rfs (listed w.name fs)

  log_failure_lem :
      (r : Result OpenError Ignorer) (db : Db) → log_failure (db_job w rfs) r db ≡ (ok tt, db)
  unfolding log
  log_failure_lem (ok i) db = refl
  log_failure_lem (err e) db = refl

  pub run_lem :
      (flush : Bool) (db : Db) (walked : Walk)
      → handle_current_paths (job_on db.files) ≡ some walked
      → IsValid walked.added
      → has_watcher w.name db.watchers ≡ true
      → let removed = removed_of walked.on_disk (listed w.name db.files) in
        run compile (db_job w rfs) flush db ≡ (
          ok (result_of walked removed),
          record db { files = without w.name removed (with_added w.name walked.added flush db) },
        )
  unfolding run log open_remote_fs save_updates list_watched_files
  run_lem flush db walked e v h = rw (log_failure_lem (rules compile (db_job w rfs) rfs) db) (
      rw e (
        rw (save_added_lem w rfs walked.added flush db v h) (
          rw
            (save_removed_lem w rfs (removed_of walked.on_disk (listed w.name db.files))
              (record db { files = with_added w.name walked.added flush db }))
            refl)))
