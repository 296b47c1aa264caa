-- ===== src/Server/Web/Services.antt =====
-- server/web/handler.go: the services that the handlers call, over their state `S`, and how a page
-- is rendered.
use tiny_file_watcher.Prelude.{ℕ, String, Bool, Option, List, [], ◌∷◌, ◌==◌, any, if◌then◌else◌}
use tiny_file_watcher.Server.Outcome.{Exec, Code}
use tiny_file_watcher.Server.Watcher.Service.{WatcherMessage, SyncWatcherResponse}
use tiny_file_watcher.Server.Flush.Service.{PendingFile}
use tiny_file_watcher.Server.Redirection.{RedirectionMessage}
use tiny_file_watcher.Server.Machine.{MachineResponse}
use tiny_file_watcher.Server.Web.Http.{PageData, Reply, page, error}

pub record WatcherApi (S : Type 0) : Type 0 where
  -- the argument is the machine of a ListWatchersRequest
  pub list_watchers : Option String → Exec Code S (List WatcherMessage)
  pub sync_watcher : String → Exec Code S SyncWatcherResponse

pub record FlushApi (S : Type 0) : Type 0 where
  pub list_pending_files : String → Exec Code S (List PendingFile)
  pub flush_watcher : String → Exec Code S Bool

pub record RedirectionApi (S : Type 0) : Type 0 where
  pub get_file_redirection : String → Exec Code S RedirectionMessage

pub record MachineApi (S : Type 0) : Type 0 where
  pub get_machines : Exec Code S (List MachineResponse)
  -- name, address, port as the bit pattern of an int32, user, key
  pub create_machine : String → String → ℕ → String → String → Exec Code S MachineResponse
  pub delete_machine : String → Exec Code S Bool

pub record Services (S : Type 0) : Type 0 where
  pub watcher_svc : WatcherApi S
  pub flush_svc : FlushApi S
  pub redirect_svc : RedirectionApi S
  pub machine_svc : MachineApi S

abbrev pub pages : List String
pages =
    "index.html" ∷ "watchers.html" ∷ "watcher.html" ∷ "machines.html" ∷ "machine.html"
    ∷ "login.html" ∷ []

-- there is a template for each of `pages`
unfoldable pub render : String → PageData → Reply
render name content = if any (λ p. p == name) pages then page name content else error 500
