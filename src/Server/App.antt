-- ===== src/Server/App.antt =====
-- server/app.go: the services that NewApp makes over one database, as the web UI calls them. `R` is
-- the state of the machines and of the clients of the streams.
pub mod Dashboard
pub mod Ports
pub mod Start
use tiny_file_watcher.Prelude.{String, Bool, List}
use tiny_file_watcher.Server.Outcome.{Result, Exec, Code}
use tiny_file_watcher.Server.Database.{Machine, Db}
use tiny_file_watcher.Server.Database.Repositories.{
  db_watcher_repository, db_file_repository, db_machine_repository, db_redirection_repository,
  db_flush_repository,
}
use tiny_file_watcher.Server.Watcher.Walk.{RemoteFs}
use tiny_file_watcher.Server.Watcher.Service
use tiny_file_watcher.Server.Watcher.Service.{WatcherService, Guarded}
use tiny_file_watcher.Server.Flush.Transfer.{SftpDialer}
use tiny_file_watcher.Server.Flush.Service as Flush
use tiny_file_watcher.Server.Flush.Service.{FlushService}
use tiny_file_watcher.Server.Redirection
use tiny_file_watcher.Server.Redirection.{RedirectionService}
use tiny_file_watcher.Server.Machine
use tiny_file_watcher.Server.Web.Services.{Services}

-- the database with the locks of the syncs, and the machines
pub record World (R : Type 0) : Type 0 where
  pub store : Guarded Db
  pub remote : R

-- the connections to machines, the patterns of go-gitignore, and how messages are sent
pub record Outside (R : Type 0) : Type 0 where
  pub connect : Machine → Result (Unit {0}) RemoteFs
  pub compile : List String → String → Bool
  pub dialer : SftpDialer R
  pub send_sync : Service.Event → Exec (Unit {0}) Db (Unit {0})
  pub send_flush : Flush.Event → Exec (Unit {0}) R (Unit {0})

module _ {R : Type 0} where
  abbrev pub on_store : {A : Type 0} → Exec Code (Guarded Db) A → Exec Code (World R) A
  on_store m w = let (r, g) = m w.store in (r, record w { store = g })

  abbrev pub on_db : {A : Type 0} → Exec Code Db A → Exec Code (World R) A
  on_db m w = let (r, d) = m w.store.rows in (r, record w { store = record w.store { rows = d } })

  abbrev on_machines : {A : Type 0} → Exec Code (Db × R) A → Exec Code (World R) A
  on_machines m w =
      let (r, s) = m (w.store.rows, w.remote) in
      (r, record { store = record w.store { rows = s.0 }; remote = s.1 })

  module _ (o : Outside R) where
    -- watcher.NewManagerService(db, db, db, logger)
    abbrev pub watcher_svc : WatcherService Db
    watcher_svc = record {
      watcher_repository = db_watcher_repository;
      file_repository = db_file_repository;
      machine_repository = db_machine_repository;
      connect = o.connect;
      compile = o.compile;
      send = o.send_sync;
    }

    -- flush.NewFlushService(db, logger)
    abbrev pub flush_svc : FlushService Db R
    flush_svc = record {
      flush_repository = db_flush_repository;
      dialer = o.dialer;
      send = o.send_flush;
    }

    -- redirection.NewRedirectionService(db, db, db, db, logger)
    abbrev pub redirection_svc : RedirectionService Db
    redirection_svc = record {
      redirection_repository = db_redirection_repository;
      machine_repository = db_machine_repository;
    }

    -- what web.New is given
    abbrev pub services : Services (World R)
    services = record {
      watcher_svc = record {
        list_watchers = λ machine. on_db (Service.list_watchers watcher_svc machine);
        sync_watcher = λ name. on_store (Service.sync_watcher watcher_svc name);
      };
      flush_svc = record {
        list_pending_files = λ name. on_db (Flush.list_pending_files flush_svc name);
        flush_watcher = λ name. on_machines (Flush.flush_watcher flush_svc name);
      };
      redirect_svc = record {
        get_file_redirection =
            λ name. on_db (Redirection.get_file_redirection redirection_svc name);
      };
      machine_svc = record {
        get_machines = on_db (Machine.get_machines db_machine_repository);
        create_machine = λ name ip port user key.
            on_db (Machine.create_machine db_machine_repository name ip port user key);
        delete_machine = λ name. on_db (Machine.delete_machine db_machine_repository name);
      };
    }
