-- ===== src/Server/Watcher/Streaming/Jobs.antt =====
-- server/watcher/service.go: the job of StreamSyncWatcher beside that of SyncWatcher.
use tiny_file_watcher.Prelude.{
  refl, String, Bool, List, [], ◌∷◌, length, Bool-cases, inl, inr, nat_eq, none, some, Option,
}
use tiny_file_watcher.Internal.Set
use tiny_file_watcher.Internal.Set.{Set}
use tiny_file_watcher.Server.Outcome.{Result, ok, err}
use tiny_file_watcher.Server.Database.{FileWatcher, Machine}
use tiny_file_watcher.Server.Watcher.Ignore.{OpenError, Ignorer}
use tiny_file_watcher.Server.Watcher.Walk.{Walk, handle_current_paths}
use tiny_file_watcher.Server.Watcher.Sync
use tiny_file_watcher.Server.Watcher.Sync.{
  SyncJob, SyncError, SyncResult, log, log_failure, rules, or_unfinished, walk_job, open_remote_fs,
  save_added, save_removed, save_updates, no_connection, database_failure, walk_unfinished,
  removed_of, int32,
}
use tiny_file_watcher.Server.Watcher.Service.{WatcherService, sync_job, no_callback, send_callback}
use tiny_file_watcher.Server.Watcher.Streaming.{
  Streamed, streamed, Logs, on_state-Logs, result-Logs, or_status-Logs, bind-Logs,
}

module _ {S : Type 0} where
  module _ (svc : WatcherService S) (w : FileWatcher) (machine : Machine) where
    -- the jobs of the two calls
    abbrev pub quiet : SyncJob S
    quiet = sync_job svc w machine no_callback

    abbrev pub loud : SyncJob (Streamed S)
    loud = sync_job (streamed svc) w machine (send_callback (streamed svc))

    log-Logs : (msg : String) → Logs (log loud msg) (log quiet msg)
    unfolding log
    log-Logs msg = record { sent = λ s es. (msg ∷ [], refl) }

    log_failure-Logs :
        (r : Result OpenError Ignorer) → Logs (log_failure loud r) (log_failure quiet r)
    log_failure-Logs (ok i) = result-Logs (ok tt)
    log_failure-Logs (err e) = log-Logs "ignoring rules"

    or_unfinished-Logs : (x : Option Walk) → Logs {S = S} (or_unfinished x) (or_unfinished x)
    or_unfinished-Logs none = result-Logs (err walk_unfinished)
    or_unfinished-Logs (some x) = result-Logs (ok x)

    save_added-Logs :
        (added : Set String) (flush : Bool)
        → Logs (save_added loud added flush) (save_added quiet added flush)
    unfolding save_added
    save_added-Logs added flush = elim (Bool-cases (nat_eq (Set.size added) 0)) [
      | inl e ↦ rw e (result-Logs (ok tt))
      | inr e ↦ rw e (
          bind-Logs _ _ _ _
            (or_status-Logs database_failure _ _
              (on_state-Logs (svc.file_repository.bulk_add_watched_files w.name added flush)))
            (λ files. result-Logs (ok tt)))
    ]

    save_removed-Logs :
        (removed : List String) → Logs (save_removed loud removed) (save_removed quiet removed)
    unfolding save_removed
    save_removed-Logs [] = result-Logs (ok tt)
    save_removed-Logs (p ∷ ps) =
        or_status-Logs database_failure _ _
          (on_state-Logs (svc.file_repository.bulk_remove_watched_files w.name (p ∷ ps)))

    save_updates-Logs :
        (added : Set String) (removed : List String) (flush : Bool)
        → Logs (save_updates loud added removed flush) (save_updates quiet added removed flush)
    unfolding save_updates
    save_updates-Logs added removed flush =
        bind-Logs _ _ _ _ (save_added-Logs added flush) (λ t. save_removed-Logs removed)

    open_remote_fs-Logs : Logs (open_remote_fs loud) (open_remote_fs quiet)
    unfolding open_remote_fs
    open_remote_fs-Logs = or_status-Logs no_connection _ _ (result-Logs (svc.connect machine))

    abbrev result_of : Walk → List String → SyncResult
    result_of walk removed = record {
      added_count = int32 (Set.size walk.added);
      removed_count = int32 (length removed);
      added_files = walk.added;
      removed_files = removed;
    }

    -- a job does the same with and without messages
    pub run-Logs :
        (flush : Bool) → Logs (Sync.run svc.compile loud flush) (Sync.run svc.compile quiet flush)
    unfolding Sync.run
    run-Logs flush = bind-Logs _ _ _ _ open_remote_fs-Logs (λ rfs.
        bind-Logs _ _ _ _ (log-Logs "loading watched files from database") (λ t.
          bind-Logs _ _ _ _
            (or_status-Logs database_failure _ _
              (on_state-Logs (svc.file_repository.list_watched_files w.name)))
            (λ watched. bind-Logs _ _ _ _ (log-Logs "loading ignore rules") (λ t.
              bind-Logs _ _ _ _ (log_failure-Logs (rules svc.compile quiet rfs)) (λ t.
                bind-Logs _ _ _ _ (log-Logs "walking source path") (λ t.
                  bind-Logs _ _ _ _
                    (or_unfinished-Logs
                      (handle_current_paths (walk_job svc.compile quiet rfs watched)))
                    (λ walk. bind-Logs _ _ _ _ (log-Logs "computing removed files") (λ t.
                      bind-Logs _ _ _ _ (log-Logs "saving updates to database") (λ t.
                        bind-Logs _ _ _ _
                          (save_updates-Logs walk.added (removed_of walk.on_disk watched) flush)
                          (λ t.
                            result-Logs
                              (ok (result_of walk (removed_of walk.on_disk watched)))))))))))))
