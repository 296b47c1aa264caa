-- ===== src/Client/Rpc.antt =====
-- The clients of the four gRPC services that client/cmd calls. `E` is the error of a call, that of
-- the connection included, and `S` the server as it is seen over the connection.
use tiny_file_watcher.Prelude.{ℕ, String, Bool, Option, List}
use tiny_file_watcher.Server.Outcome.{Exec}
use tiny_file_watcher.Server.Watcher.Service.{WatcherMessage, FileMessage, SyncWatcherResponse}
use tiny_file_watcher.Server.Watcher.Service as Sync
use tiny_file_watcher.Server.Flush.Service as Flush
use tiny_file_watcher.Server.Flush.Service.{PendingFile}
use tiny_file_watcher.Server.Machine.{MachineResponse}
use tiny_file_watcher.Server.Redirection.{RedirectionMessage}

-- what Recv gives, one after the other: messages, and then io.EOF or an error
pub record Stream (E A : Type 0) : Type 0 where
  pub messages : List A
  pub failure : Option E

pub record WatcherClient (E S : Type 0) : Type 0 where
  pub list_watched_files : String → Exec E S (List FileMessage)
  pub list_watchers : Option String → Exec E S (List WatcherMessage)
  pub get_watcher_by_name : String → Exec E S WatcherMessage
  pub create_watcher : String → String → String → Bool → Exec E S WatcherMessage
  pub update_watcher : ℕ → Option String → Option String → Exec E S WatcherMessage
  pub delete_watcher : String → Exec E S Bool
  pub sync_watcher : String → Exec E S SyncWatcherResponse
  pub stream_sync_watcher : String → Exec E S (Stream E Sync.Event)

pub record FlushClient (E S : Type 0) : Type 0 where
  pub list_pending_files : String → Exec E S (List PendingFile)
  pub flush_watcher : String → Exec E S Bool
  pub stream_flush_watcher : String → Exec E S (Stream E Flush.Event)

pub record MachineClient (E S : Type 0) : Type 0 where
  pub get_machines : Exec E S (List MachineResponse)
  pub create_machine : String → String → ℕ → String → String → Exec E S MachineResponse
  pub update_machine :
      String → Option String → Option ℕ → Option String → Option String → Exec E S MachineResponse
  pub delete_machine : String → Exec E S Bool

pub record RedirectionClient (E S : Type 0) : Type 0 where
  pub get_file_redirection : String → Exec E S RedirectionMessage
  pub create_file_redirection : String → String → String → Exec E S RedirectionMessage
  pub update_file_redirection : String → Option String → Exec E S RedirectionMessage
  pub delete_file_redirection : String → Exec E S Bool

-- the connection
pub record Conn (E S : Type 0) : Type 0 where
  pub watchers : WatcherClient E S
  pub flushes : FlushClient E S
  pub machines : MachineClient E S
  pub redirections : RedirectionClient E S
