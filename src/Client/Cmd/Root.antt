-- ===== src/Client/Cmd/Root.antt =====
-- client/cmd/root.go: dial, and how a command is run. `F` is the state of the user's files, `S` the
-- server. cobra runs PersistentPreRunE, which dials except for login and logout, before the command.
pub mod Gate
use tiny_file_watcher.Prelude.{
  ℕ, String, Bool, true, false, Option, none, some, List, if◌then◌else◌,
}
use tiny_file_watcher.Server.Outcome.{
  Result, ok, err, Exec, pure, lift, map_err, or_status, ◌>>=◌, ◌>>◌,
}
use tiny_file_watcher.Server.Config.{Settings}
use tiny_file_watcher.Client.Config.{client_config_validator}
use tiny_file_watcher.Client.Credentials.{LoadError, no_file, unreadable, TokenSet}
use tiny_file_watcher.Client.Terminal.{Line, Session, CliError}
use tiny_file_watcher.Client.Tokens.{Os, load_tokens}
use tiny_file_watcher.Client.Rpc.{Conn}
use tiny_file_watcher.Client.Cmd.Watcher
use tiny_file_watcher.Client.Cmd.Sync
use tiny_file_watcher.Client.Cmd.Flush
use tiny_file_watcher.Client.Cmd.Machine
use tiny_file_watcher.Client.Cmd.Redirection
use tiny_file_watcher.Client.Cmd.Login
use tiny_file_watcher.Client.Cmd.Login.{Provider, LoginError}

-- ridgelines/go-config: the settings of the file, if it can be read, and how it reads them
pub record ConfigFile : Type 0 where
  pub settings : Result (Unit {0}) Settings
  pub bool : String → Settings → Bool
  pub string : String → Settings → String

-- the options of grpc.NewClient: TLS or not, and the credentials of each call if there are any,
-- which are the issuer and the client id
pub record DialOptions : Type 0 where
  pub tls : Bool
  pub per_rpc : Option (String × String)

pub data DialError : Type 0 where
  bad_config not_logged_in load_tokens_failed could_not_connect : DialError

-- LoadClientConfig: the settings are validated when they are loaded
abbrev validated : Option String → Settings → Result (Unit {0}) Settings
validated none settings = ok settings
validated (some missing) settings = err tt

abbrev checked : Result (Unit {0}) Settings → Result (Unit {0}) Settings
checked (err e) = err e
checked (ok settings) = validated (client_config_validator settings) settings

unfoldable pub load_client_config : ConfigFile → Result (Unit {0}) Settings
load_client_config file = checked file.settings

abbrev of_load : LoadError → DialError
of_load no_file = not_logged_in
of_load unreadable = load_tokens_failed

module _ {F : Type 0} (os : Os F) (path : String) where
  abbrev without_tokens : Result LoadError TokenSet → Result DialError (Unit {0})
  without_tokens (ok ts) = ok tt
  without_tokens (err e) = err (of_load e)

  -- NewTokenCredentials looks only whether tokens can be loaded
  unfoldable pub new_token_credentials : String → String → Exec DialError F (String × String)
  new_token_credentials issuer client_id = do
    λ f. let (ts, f') = load_tokens os path f in (without_tokens ts, f')
    pure (issuer, client_id)

  abbrev credentials : Bool → String → String → Exec DialError F (Option (String × String))
  credentials true issuer client_id = do c ← new_token_credentials issuer client_id; pure (some c)
  credentials false issuer client_id = pure none

  unfoldable pub dial :
      {C : Type 0} → ConfigFile → (String → DialOptions → Result (Unit {0}) C) → Exec DialError F C
  unfolding load_client_config new_token_credentials
  dial file new_client = do
    cfg ← or_status bad_config (lift (load_client_config file))
    per_rpc ←
        credentials (file.bool "oidc.enabled" cfg) (file.string "oidc.issuer" cfg)
          (file.string "oidc.device-client-id" cfg)
    or_status could_not_connect (
        lift (
          new_client (file.string "grpc.address" cfg)
            (record { tls = file.bool "grpc.tls" cfg; per_rpc = per_rpc })))

-- the commands with their arguments and flags
pub data Command : Type 0 where
  login logout list_machines : Command
  watcher_files : String → Bool → Command
  watcher_list watcher_get watcher_delete : String → Command
  watcher_create : String → String → String → Bool → Command
  watcher_update : String → String → String → Command
  sync : String → Bool → Command
  flush_pending flush_run : String → Bool → Command
  machine_create machine_update : String → String → ℕ → String → String → Command
  machine_delete : String → Command
  redirection_get redirection_delete : String → Command
  redirection_create : String → String → String → Command
  redirection_update : String → String → Command

module _ {E S : Type 0} (c : Conn E S) where
  -- the RunE of a command that has a connection
  unfoldable pub run_e : Command → Exec (CliError E) (Session S) (Unit {0})
  run_e login = pure tt
  run_e logout = pure tt
  run_e list_machines = Machine.list_machines c.machines
  run_e (watcher_files name show_path) = Watcher.list_watcher_files c.watchers name show_path
  run_e (watcher_list machine) = Watcher.list_watchers c.watchers machine
  run_e (watcher_get name) = Watcher.get_watcher c.watchers name
  run_e (watcher_delete name) = Watcher.delete_watcher c.watchers name
  run_e (watcher_create name path machine flush) =
      Watcher.create_watcher c.watchers name path machine flush
  run_e (watcher_update name new_name path) = Watcher.update_watcher c.watchers name new_name path
  run_e (sync name no_stream) = Sync.sync_watcher c.watchers name no_stream
  run_e (flush_pending name show_path) = Flush.pending_files c.flushes name show_path
  run_e (flush_run name no_stream) = Flush.run_flush c.flushes name no_stream
  run_e (machine_create name ip port user key) =
      Machine.create_machine c.machines name ip port user key
  run_e (machine_update name ip port user key) =
      Machine.update_machine c.machines name ip port user key
  run_e (machine_delete name) = Machine.delete_machine c.machines name
  run_e (redirection_get name) = Redirection.get_redirection c.redirections name
  run_e (redirection_delete name) = Redirection.delete_redirection c.redirections name
  run_e (redirection_create name path machine) =
      Redirection.create_redirection c.redirections name path machine
  run_e (redirection_update name path) = Redirection.update_redirection c.redirections name path

pub data RunError (E : Type 0) : Type 0 where
  dial_error : DialError → RunError E
  command_error : CliError E → RunError E
  login_error : LoginError → RunError E

-- the files of the user, the server and the lines so far
pub record Desk (F S : Type 0) : Type 0 where
  pub files : F
  pub server : S
  pub printed : List Line

abbrev pub dials : Command → Bool
dials login = false
dials logout = false
dials cmd = true

module _ {E F S : Type 0} where
  abbrev pub on_server :
      Exec (CliError E) (Session S) (Unit {0}) → Exec (RunError E) (Desk F S) (Unit {0})
  on_server m d =
      let (r, s) = m (record { server = d.server; printed = d.printed }) in
      (map_err command_error r, record d { server = s.server; printed = s.printed })

  abbrev on_files : Exec LoginError (Session F) (Unit {0}) → Exec (RunError E) (Desk F S) (Unit {0})
  on_files m d =
      let (r, s) = m (record { server = d.files; printed = d.printed }) in
      (map_err login_error r, record d { files = s.server; printed = s.printed })

  abbrev dialing : {C : Type 0} → Exec DialError F C → Exec (RunError E) (Desk F S) C
  dialing m d = let (r, f) = m d.files in (map_err dial_error r, record d { files = f })

-- what the commands get from outside: the file of settings, gRPC, the provider for the settings, the
-- files and the path of the tokens, and the time
pub record Outside (E F S : Type 0) : Type 0 where
  pub config : ConfigFile
  pub new_client : String → DialOptions → Result (Unit {0}) (Conn E S)
  pub provider : String → String → Provider
  pub os : Os F
  pub tokens_path : String
  pub now : ℕ

module _ {E F S : Type 0} (o : Outside E F S) where
  abbrev provider_of : Result (Unit {0}) Settings → Result (Unit {0}) Provider
  provider_of (err e) = err e
  provider_of (ok cfg) =
      ok (
        o.provider (o.config.string "oidc.issuer" cfg)
          (o.config.string "oidc.device-client-id" cfg))

  abbrev pub connect_and_run : Command → Exec (RunError E) (Desk F S) (Unit {0})
  connect_and_run cmd = do
    c ← dialing (dial o.os o.tokens_path o.config o.new_client)
    on_server (run_e c cmd)

  -- Execute, for a command that does not dial and for one that does
  abbrev without_dial : Command → Exec (RunError E) (Desk F S) (Unit {0})
  without_dial logout = on_files (Login.logout o.os o.tokens_path)
  without_dial cmd =
      on_files (Login.login (provider_of (load_client_config o.config)) o.os o.tokens_path o.now)

  unfoldable pub execute : Command → Exec (RunError E) (Desk F S) (Unit {0})
  unfolding run_e
  execute cmd = if dials cmd then connect_and_run cmd else without_dial cmd
