-- ===== src/Server/Watcher/Service.antt =====
-- server/watcher/service.go: the gRPC service of watchers. `S` is the state of the database and of
-- the caller that gets the messages of a stream.
pub mod Creation
pub mod Requests
pub mod Refusal
use tiny_file_watcher.Prelude.{
  ℕ, ◌^◌, String, Bool, true, false, ◌&&◌, ◌||◌, Option, none, some, List, [], ◌∷◌, map, ◌==◌, leb,
  nat_eq, if◌then◌else◌,
}
use tiny_file_watcher.Internal.Set
use tiny_file_watcher.Server.Outcome.{
  Result, ok, err, Exec, Code, DbError, invalid_argument, not_found, already_exists, internal, pure,
  fail, refuse, or_status, recode, map_err, ◌>>=◌, ◌>>◌,
}
use tiny_file_watcher.Server.Database.{FileWatcher, Machine, WatchedFile}
use tiny_file_watcher.Server.Database.Repositories.{
  FileWatcherRepository, FileRepository, MachineRepository,
}
use tiny_file_watcher.Server.Watcher.Walk.{RemoteFs}
use tiny_file_watcher.Server.Watcher.Locks.{LockTable, try_acquire_sync_lock, set_lock}
use tiny_file_watcher.Server.Watcher.Sync
use tiny_file_watcher.Server.Watcher.Sync.{SyncJob, SyncResult, SyncError}

-- the message SyncWatcherResponse
pub record SyncWatcherResponse : Type 0 where
  pub added_count : ℕ
  pub removed_count : ℕ
  pub added_files : List String
  pub removed_files : List String

-- the message SyncWatcherEvent
pub data Event : Type 0 where
  log_event : String → Event
  result_event : SyncWatcherResponse → Event

pub record WatcherService (S : Type 0) : Type 0 where
  pub watcher_repository : FileWatcherRepository S
  pub file_repository : FileRepository S
  pub machine_repository : MachineRepository S
  -- the connection over SSH
  pub connect : Machine → Result (Unit {0}) RemoteFs
  -- the patterns of go-gitignore
  pub compile : List String → String → Bool
  -- how a message is sent to the caller of a stream
  pub send : Event → Exec (Unit {0}) S (Unit {0})

-- the message Watcher
pub record WatcherMessage : Type 0 where
  pub id : ℕ
  pub name : String
  pub source_path : String
  pub machine_name : String
  pub created_at : ℕ
  pub updated_at : ℕ

abbrev pub to_proto : FileWatcher → WatcherMessage
to_proto w = record {
  id = w.id;
  name = w.name;
  source_path = w.source_path;
  machine_name = w.machine_name;
  created_at = w.created_at;
  updated_at = w.updated_at;
}

-- the message WatchedFile as this service fills it
pub record FileMessage : Type 0 where
  pub file_path : String
  pub flushed : Bool
  pub detected_at : ℕ

abbrev pub to_file_message : WatchedFile → FileMessage
to_file_message f = record {
  file_path = f.file_path;
  flushed = f.flushed;
  detected_at = f.detected_at;
}

-- an error of the status package, or the panic of a nil pointer that is read
pub data Failure : Type 0 where
  status : Code → Failure
  panic : Failure

abbrev both_absent : Option String → Option String → Bool
both_absent none none = true
both_absent none (some x) = false
both_absent (some x) y = false

module _ {S : Type 0} where
  abbrev pub no_callback : String → S → S
  no_callback msg s = s

  abbrev pub sync_job : WatcherService S → FileWatcher → Machine → (String → S → S) → SyncJob S
  sync_job s w machine on_log = record {
    watcher = w;
    remote = s.connect machine;
    file_repository = s.file_repository;
    on_log = on_log;
  }

  -- the job of AddExistingFiles: its error is logged only; the machine is nil if it was not found
  abbrev run_existing :
      WatcherService S → FileWatcher → Result DbError Machine → Exec Failure S (Unit {0})
  run_existing s w (err e) t = (err panic, t)
  run_existing s w (ok machine) t =
      (ok tt, (Sync.run s.compile (sync_job s w machine no_callback) true t).1)

  unfoldable pub add_existing_files : WatcherService S → FileWatcher → Exec Failure S (Unit {0})
  add_existing_files s w t =
      let (machine, t') = s.machine_repository.get_machine_by_name w.machine_name t in
      run_existing s w machine t'

  abbrev when : {E : Type 0} → Bool → Exec E S (Unit {0}) → Exec E S (Unit {0})
  when true m = m
  when false m = pure tt

  unfoldable pub create_watcher :
      WatcherService S → String → String → String → Bool → Exec Failure S WatcherMessage
  create_watcher s name source_path machine_name flush_existing = do
    refuse (name == "" || source_path == "") (status invalid_argument)
    refuse (machine_name == "") (status invalid_argument)
    w ←
        or_status (status internal)
          (s.watcher_repository.create_watcher name source_path machine_name)
    when flush_existing (add_existing_files s w)
    pure (to_proto w)

  unfoldable pub list_watched_files : WatcherService S → String → Exec Code S (List FileMessage)
  list_watched_files s watcher_name = do
    refuse (watcher_name == "") invalid_argument
    files ← or_status internal (s.file_repository.list_watched_files watcher_name)
    pure (map to_file_message files)

  unfoldable pub get_watcher_by_id : WatcherService S → ℕ → Exec Code S WatcherMessage
  get_watcher_by_id s id = do
    w ← or_status not_found (s.watcher_repository.get_watcher_by_id id)
    pure (to_proto w)

  unfoldable pub get_watcher_by_name : WatcherService S → String → Exec Code S WatcherMessage
  get_watcher_by_name s name = do
    w ← or_status not_found (s.watcher_repository.get_watcher_by_name name)
    pure (to_proto w)

  abbrev watchers_of : WatcherService S → Option String → Exec DbError S (List FileWatcher)
  watchers_of s none = s.watcher_repository.list_watchers
  watchers_of s (some machine_name) =
      if machine_name == ""
      then s.watcher_repository.list_watchers
      else s.watcher_repository.list_watchers_by_machine machine_name

  unfoldable pub list_watchers :
      WatcherService S → Option String → Exec Code S (List WatcherMessage)
  list_watchers s machine_name = do
    watchers ← or_status internal (watchers_of s machine_name)
    pure (map to_proto watchers)

  -- the id is the bit pattern of an int64: below 1 are 0 and the patterns from 2 ^ 63
  unfoldable pub update_watcher :
      WatcherService S → ℕ → Option String → Option String → Exec Code S WatcherMessage
  update_watcher s id name source_path = do
    refuse (nat_eq id 0 || leb (2 ^ 63) id) invalid_argument
    refuse (both_absent name source_path) invalid_argument
    w ← or_status internal (s.watcher_repository.update_watcher id name source_path)
    pure (to_proto w)

  unfoldable pub delete_watcher : WatcherService S → String → Exec Code S Bool
  delete_watcher s name = do
    or_status not_found (s.watcher_repository.get_watcher_by_name name)
    or_status internal (s.watcher_repository.delete_watcher name)
    pure true

-- the state with the locks of the syncs
pub record Guarded (S : Type 0) : Type 0 where
  pub rows : S
  pub locks : LockTable

abbrev pub response : SyncResult → SyncWatcherResponse
response r = record {
  added_count = r.added_count;
  removed_count = r.removed_count;
  added_files = Set.items r.added_files;
  removed_files = r.removed_files;
}

module _ {S : Type 0} where
  abbrev on_rows : {E A : Type 0} → Exec E S A → Exec E (Guarded S) A
  on_rows m g = let (r, s) = m g.rows in (r, record g { rows = s })

  -- what runs under the lock, and the deferred unlock
  abbrev under_lock :
      {A : Type 0} → String → Bool × LockTable → Exec Code S A → Exec Code (Guarded S) A
  under_lock name (false, t) m g = (err already_exists, record g { locks = t })
  under_lock name (true, t) m g =
      let (r, s) = m g.rows in (r, record { rows = s; locks = set_lock name false t })

  abbrev with_lock : {A : Type 0} → String → Exec Code S A → Exec Code (Guarded S) A
  with_lock name m g = under_lock name (try_acquire_sync_lock name g.locks) m g

  -- the checks that both syncs make first
  abbrev watcher_and_machine :
      WatcherService S → String → Exec Code (Guarded S) (FileWatcher × Machine)
  watcher_and_machine s name = do
    refuse (name == "") invalid_argument
    w ← or_status not_found (on_rows (s.watcher_repository.get_watcher_by_name name))
    machine ← or_status internal (on_rows (s.machine_repository.get_machine_by_name w.machine_name))
    pure (w, machine)

  unfoldable pub sync_watcher :
      WatcherService S → String → Exec Code (Guarded S) SyncWatcherResponse
  sync_watcher s name = do
    (w, machine) ← watcher_and_machine s name
    with_lock name (do
      result ← or_status internal (Sync.run s.compile (sync_job s w machine no_callback) false)
      pure (response result))

  -- the callback of a stream ignores that a message cannot be sent
  abbrev pub send_callback : WatcherService S → String → S → S
  send_callback s msg t = (s.send (log_event msg) t).1

  unfoldable pub stream_sync_watcher : WatcherService S → String → Exec Code (Guarded S) (Unit {0})
  stream_sync_watcher s name = do
    (w, machine) ← watcher_and_machine s name
    with_lock name (do
      result ←
          or_status internal (Sync.run s.compile (sync_job s w machine (send_callback s)) false)
      or_status internal (s.send (log_event "sync complete"))
      or_status internal (s.send (result_event (response result))))
