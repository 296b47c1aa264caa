-- ===== src/Server/Watcher/Sync.antt =====
-- server/watcher/sync.go: `SyncJob` and its Run. The file system of the machine is what the SSH
-- connection gives, or its failure.
pub mod Rows
pub mod Updates
pub mod Reconcile
pub mod Settles
pub mod Flushed
use Prim.Native.String.{◌++◌ as append}
use tiny_file_watcher.Prelude.{
  ℕ, zero, ◌%◌, ◌^◌, String, Bool, not, Option, none, some, List, [], ◌∷◌, map, keep, length,
  nat_eq, string_comparable, if◌then◌else◌,
}
use tiny_file_watcher.Internal.Set
use tiny_file_watcher.Internal.Set.{Set, new_set_with_size, contains, add}
use tiny_file_watcher.Server.Outcome.{
  Result, ok, err, Exec, DbError, pure, fail, lift, or_status, ◌>>=◌, ◌>>◌,
}
use tiny_file_watcher.Server.Database.{FileWatcher, WatchedFile}
use tiny_file_watcher.Server.Database.Repositories.{FileRepository}
use tiny_file_watcher.Server.Watcher.Ignore.{
  Ignorer, OpenError, noop_ignorer, load_ignore, ignore_file_name,
}
use tiny_file_watcher.Server.Watcher.Walk.{RemoteFs, Walk, Job, handle_current_paths}

-- why a job fails; the fuel of the walk is bound to suffice on a tree
pub data SyncError : Type 0 where
  no_connection database_failure walk_unfinished : SyncError

-- an int as int32: the bit pattern
abbrev pub int32 : ℕ → ℕ
int32 n = n % 2 ^ 32

pub record SyncResult : Type 0 where
  pub added_count : ℕ
  pub removed_count : ℕ
  pub added_files : Set String
  pub removed_files : List String

pub record SyncJob (S : Type 0) : Type 0 where
  pub watcher : FileWatcher
  -- what openRemoteFS returns
  pub remote : Result (Unit {0}) RemoteFs
  pub file_repository : FileRepository S
  -- the callback; the identity if none is set
  pub on_log : String → S → S

unfoldable pub add_paths : Set String → List WatchedFile → Set String
add_paths s [] = s
add_paths s (f ∷ fs) = add_paths (add s f.file_path) fs

unfoldable pub watched_set : List WatchedFile → Set String
unfolding add_paths
watched_set fs = add_paths (new_set_with_size (length fs)) fs

-- the tracked files that are not on disk
unfoldable pub removed_of : Set String → List WatchedFile → List String
removed_of on_disk fs = keep (λ p. not (contains on_disk p)) (map (λ f. f.file_path) fs)

-- the rules, or none where they cannot be read
abbrev pub or_noop : Result OpenError Ignorer → Ignorer
or_noop (ok i) = i
or_noop (err e) = noop_ignorer

module _ {S : Type 0} where
  unfoldable pub log : SyncJob S → String → Exec SyncError S (Unit {0})
  log j msg s = (ok tt, j.on_log msg s)

  abbrev pub log_failure : SyncJob S → Result OpenError Ignorer → Exec SyncError S (Unit {0})
  log_failure j (ok i) = pure tt
  log_failure j (err e) = log j "ignoring rules"

  abbrev pub or_unfinished : Option Walk → Exec SyncError S Walk
  or_unfinished none = fail walk_unfinished
  or_unfinished (some w) = pure w

  -- openRemoteFS
  unfoldable pub open_remote_fs : SyncJob S → Exec SyncError S RemoteFs
  open_remote_fs j = or_status no_connection (lift j.remote)

  unfoldable pub save_added : SyncJob S → Set String → Bool → Exec SyncError S (Unit {0})
  save_added j added flush =
      if nat_eq (Set.size added) 0
      then pure tt
      else or_status database_failure
          (j.file_repository.bulk_add_watched_files j.watcher.name added flush)
        >> pure tt

  unfoldable pub save_removed : SyncJob S → List String → Exec SyncError S (Unit {0})
  save_removed j [] = pure tt
  save_removed j (p ∷ ps) =
      or_status database_failure
        (j.file_repository.bulk_remove_watched_files j.watcher.name (p ∷ ps))

  unfoldable pub save_updates :
      SyncJob S → Set String → List String → Bool → Exec SyncError S (Unit {0})
  unfolding save_added save_removed
  save_updates j added removed flush = do save_added j added flush; save_removed j removed

  module _ (compile : List String → String → Bool) where
    -- the rules of the file .tfwignore in the source path
    abbrev pub rules : SyncJob S → RemoteFs → Result OpenError Ignorer
    rules j rfs =
        load_ignore compile rfs.opener (append j.watcher.source_path (append "/" ignore_file_name))

    -- what the walk is given
    abbrev pub walk_job : SyncJob S → RemoteFs → List WatchedFile → Job
    walk_job j rfs watched = record {
      rfs = rfs;
      source_path = j.watcher.source_path;
      watched = watched_set watched;
      ignorer = or_noop (rules j rfs);
    }

    unfoldable pub run : SyncJob S → Bool → Exec SyncError S SyncResult
    unfolding log open_remote_fs save_updates watched_set removed_of
    run j flush = do
      rfs ← open_remote_fs j
      log j "loading watched files from database"
      watched ← or_status database_failure (j.file_repository.list_watched_files j.watcher.name)
      log j "loading ignore rules"
      log_failure j (rules j rfs)
      log j "walking source path"
      w ← or_unfinished (handle_current_paths (walk_job j rfs watched))
      log j "computing removed files"
      let removed = removed_of w.on_disk watched
      log j "saving updates to database"
      save_updates j w.added removed flush
      pure (record {
        added_count = int32 (Set.size w.added);
        removed_count = int32 (length removed);
        added_files = w.added;
        removed_files = removed;
      })
