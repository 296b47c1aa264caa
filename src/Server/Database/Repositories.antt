-- ===== src/Server/Database/Repositories.antt =====
-- server/database: the repository interfaces that the services take, over the state of whatever
-- implements them, and the database as their implementation.
use tiny_file_watcher.Prelude.{ℕ, String, Bool, Option, List}
use tiny_file_watcher.Internal.Set.{Set}
use tiny_file_watcher.Server.Outcome.{Exec, DbError}
use tiny_file_watcher.Server.Database.{Machine, FileWatcher, WatchedFile, FileRedirection, Db}
use tiny_file_watcher.Server.Database.Files.{PendingFlush}
use tiny_file_watcher.Server.Database.Machines
use tiny_file_watcher.Server.Database.Watchers
use tiny_file_watcher.Server.Database.Files
use tiny_file_watcher.Server.Database.Redirections

pub record FileRepository (S : Type 0) : Type 0 where
  pub add_watched_file : String → String → Bool → Exec DbError S WatchedFile
  pub bulk_add_watched_files : String → Set String → Bool → Exec DbError S (List WatchedFile)
  pub remove_watched_file : String → String → Exec DbError S (Unit {0})
  pub bulk_remove_watched_files : String → List String → Exec DbError S (Unit {0})
  pub flush_watched_files : List ℕ → Exec DbError S (Unit {0})
  pub list_watched_files : String → Exec DbError S (List WatchedFile)

pub record FileWatcherRepository (S : Type 0) : Type 0 where
  pub create_watcher : String → String → String → Exec DbError S FileWatcher
  pub get_watcher_by_id : ℕ → Exec DbError S FileWatcher
  pub get_watcher_by_name : String → Exec DbError S FileWatcher
  pub list_watchers : Exec DbError S (List FileWatcher)
  pub list_watchers_by_machine : String → Exec DbError S (List FileWatcher)
  pub update_watcher : ℕ → Option String → Option String → Exec DbError S FileWatcher
  pub delete_watcher : String → Exec DbError S (Unit {0})

pub record MachineRepository (S : Type 0) : Type 0 where
  pub create_machine : String → String → ℕ → String → String → Exec DbError S Machine
  pub get_machine_by_name : String → Exec DbError S Machine
  pub list_machines : Exec DbError S (List Machine)
  pub update_machine :
      String → Option String → Option ℕ → Option String → Option String → Exec DbError S Machine
  pub delete_machine : String → Exec DbError S (Unit {0})

pub record RedirectionRepository (S : Type 0) : Type 0 where
  pub add_redirection : String → String → String → Exec DbError S FileRedirection
  pub get_redirection : String → Exec DbError S FileRedirection
  pub remove_redirection : String → Exec DbError S (Unit {0})
  pub update_redirection : String → Option String → Exec DbError S FileRedirection

pub record FlushRepository (S : Type 0) : Type 0 where
  pub list_pending_flushes : String → Exec DbError S (List PendingFlush)
  pub flush_watched_files : List ℕ → Exec DbError S (Unit {0})

abbrev pub db_file_repository : FileRepository Db
db_file_repository = record {
  add_watched_file = Files.add_watched_file;
  bulk_add_watched_files = Files.bulk_add_watched_files;
  remove_watched_file = Files.remove_watched_file;
  bulk_remove_watched_files = Files.bulk_remove_watched_files;
  flush_watched_files = Files.flush_watched_files;
  list_watched_files = Files.list_watched_files;
}

abbrev pub db_watcher_repository : FileWatcherRepository Db
db_watcher_repository = record {
  create_watcher = Watchers.create_watcher;
  get_watcher_by_id = Watchers.get_watcher_by_id;
  get_watcher_by_name = Watchers.get_watcher_by_name;
  list_watchers = Watchers.list_watchers;
  list_watchers_by_machine = Watchers.list_watchers_by_machine;
  update_watcher = Watchers.update_watcher;
  delete_watcher = Watchers.delete_watcher;
}

abbrev pub db_machine_repository : MachineRepository Db
db_machine_repository = record {
  create_machine = Machines.create_machine;
  get_machine_by_name = Machines.get_machine_by_name;
  list_machines = Machines.list_machines;
  update_machine = Machines.update_machine;
  delete_machine = Machines.delete_machine;
}

abbrev pub db_redirection_repository : RedirectionRepository Db
db_redirection_repository = record {
  add_redirection = Redirections.add_redirection;
  get_redirection = Redirections.get_redirection;
  remove_redirection = Redirections.remove_redirection;
  update_redirection = Redirections.update_redirection;
}

abbrev pub db_flush_repository : FlushRepository Db
db_flush_repository = record {
  list_pending_flushes = Files.list_pending_flushes;
  flush_watched_files = Files.flush_watched_files;
}
