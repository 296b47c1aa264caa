-- ===== src/Server/Watcher/Service/Creation.antt =====
-- server/watcher/service.go: CreateWatcher over the database.
use tiny_file_watcher.Prelude.{String, Bool, List, string_comparable}
use tiny_file_watcher.Server.Outcome.{Result, Exec}
use tiny_file_watcher.Server.Database.{Machine, Db}
use tiny_file_watcher.Server.Database.Repositories.{
  db_watcher_repository, db_file_repository, db_machine_repository,
}
use tiny_file_watcher.Server.Watcher.Walk.{RemoteFs}
use tiny_file_watcher.Server.Watcher.Service.{WatcherService, Event}

module _ (connect : Machine → Result (Unit {0}) RemoteFs) (compile : List String → String → Bool)
    (send : Event → Exec (Unit {0}) Db (Unit {0})) where
  -- the service over the database
  abbrev pub db_service : WatcherService Db
  db_service = record {
    watcher_repository = db_watcher_repository;
    file_repository = db_file_repository;
    machine_repository = db_machine_repository;
    connect = connect;
    compile = compile;
    send = send;
  }
