-- ===== src/Server/App/Start.antt =====
-- server/app.go: NewApp, with database.Open, newAuthProvider and web.New that it calls. `N` is the
-- state of what is outside of the program: files, SQLite and the network; `C` is a connection to
-- SQLite. The templates are part of the program, so that they parse.
pub mod Closed
pub mod Unserved
pub mod Levels
use tiny_file_watcher.Prelude.{
  String, Bool, true, false, ◌&&◌, ◌==◌, Option, none, some, [], if◌then◌else◌,
}
use tiny_file_watcher.Internal.FilePath.{is_sep}
use tiny_file_watcher.Internal.TfwPath.{Environment, server_config_path, database_path}
use tiny_file_watcher.Server.Outcome.{Result, ok, err, Exec, pure, lift, or_status, ◌>>=◌, ◌>>◌}
use tiny_file_watcher.Server.Config.{Settings, server_config_validator}
use tiny_file_watcher.Server.Interceptor.{TokenVerifier, noop_verifier, oidc_token_verifier}
use tiny_file_watcher.Server.Web.Sessions.{SessionStore}
use tiny_file_watcher.Server.Web.Auth.{AuthProvider, Handler}
use tiny_file_watcher.Server.App.Start.Levels.{is_level}

pub record OidcConfig : Type 0 where
  pub enabled : Bool
  pub issuer : String
  pub client_id : String
  pub client_secret : String
  pub device_client_id : String
  pub redirect_uri : String

-- go-oidc and oauth2: a provider that was discovered. The verifier is that of a client id; the
-- other two are those of the client id, secret and redirect URI of the configuration.
pub record Provider : Type 0 where
  pub verifier : String → String → Result (Unit {0}) (Unit {0})
  pub auth_code_url : OidcConfig → String → String
  pub exchange : OidcConfig → String → Result (Unit {0}) (Option String)

-- the two statements that Open executes
pub data Statement : Type 0 where
  schema foreign_keys_on : Statement

-- ridgelines/go-config: the settings of a YAML file and how they are read, with whether there is no
-- error; modernc.org/sqlite; the discovery of go-oidc
pub record Surroundings (N C : Type 0) : Type 0 where
  pub environment : Environment
  pub yaml_file : String → Exec (Unit {0}) N Settings
  pub bool : String → Settings → Bool
  pub string : String → Settings → String × Bool
  pub string_or : String → String → Settings → String
  pub sql_open : String → Exec (Unit {0}) N C
  pub sql_exec : C → Statement → Exec (Unit {0}) N (Unit {0})
  pub new_provider : String → Exec (Unit {0}) N Provider

pub data AppError : Type 0 where
  -- the panic of the paths
  no_home : AppError
  load_config invalid_log_level : AppError
  open_sqlite apply_schema enable_foreign_keys : AppError
  oidc_provider_discovery create_web_handler : AppError

pub record App (C : Type 0) : Type 0 where
  pub config : Settings
  pub db : C
  pub grpc_addr : String
  -- what the interceptors of the gRPC server verify tokens with
  pub token_verifier : TokenVerifier
  pub web_handler : Handler

abbrev known : Option String → Result AppError String
known none = err no_home
known (some path) = ok path

-- Load: the settings of the file, validated
abbrev validated : Option String → Settings → Result AppError Settings
validated none settings = ok settings
validated (some missing) settings = err load_config

abbrev check_level : String × Bool → Result AppError (Unit {0})
check_level (text, true) = if is_level text then ok tt else err invalid_log_level
check_level (text, false) = ok tt

-- strings.TrimRight(basePath, "/")
unfoldable pub trim_slashes : String → String
unfolding is_sep
trim_slashes String.[] = ""
trim_slashes (String.◌∷◌ c s) =
    let rest = trim_slashes s in if is_sep c && (rest == "") then "" else String.◌∷◌ c rest

-- a handler without OIDC has no provider, and no route that uses it
abbrev pub no_provider : AuthProvider
no_provider = record {
  auth_code_url = λ state. "";
  exchange = λ code. err tt;
  verify = λ token. err tt;
}

abbrev pub handler : AuthProvider → String → Option SessionStore → Handler
handler auth base_path sessions = record { auth = auth; base_path = base_path; sessions = sessions }

module _ {N C : Type 0} (o : Surroundings N C) where
  -- a setting whose error is ignored
  abbrev text : String → Settings → String
  text key cfg = (o.string key cfg).0

  abbrev oidc_cfg_from_config : Settings → OidcConfig
  oidc_cfg_from_config cfg = record {
    enabled = o.bool "oidc.enabled" cfg;
    issuer = text "oidc.issuer" cfg;
    client_id = text "oidc.client-id" cfg;
    client_secret = text "oidc.client-secret" cfg;
    device_client_id = text "oidc.device-client-id" cfg;
    redirect_uri = text "oidc.redirect-uri" cfg;
  }

  -- cfg.Load
  abbrev load : String → Exec AppError N Settings
  load path = do
    settings ← or_status load_config (o.yaml_file path)
    lift (validated (server_config_validator settings) settings)

  -- database.Open
  unfoldable pub database_open : String → Exec AppError N C
  database_open path = do
    conn ← or_status open_sqlite (o.sql_open path)
    or_status apply_schema (o.sql_exec conn schema)
    or_status enable_foreign_keys (o.sql_exec conn foreign_keys_on)
    pure conn

  abbrev pub verifier_for : OidcConfig → Bool → Exec AppError N TokenVerifier
  verifier_for oidc false = pure noop_verifier
  verifier_for oidc true = do
    provider ← or_status oidc_provider_discovery (o.new_provider oidc.issuer)
    pure (oidc_token_verifier (provider.verifier oidc.device_client_id))

  -- newAuthProvider
  abbrev new_auth_provider : OidcConfig → Exec AppError N AuthProvider
  new_auth_provider oidc = do
    provider ← or_status create_web_handler (o.new_provider oidc.issuer)
    pure (record {
      auth_code_url = provider.auth_code_url oidc;
      exchange = provider.exchange oidc;
      verify = provider.verifier oidc.client_id;
    })

  -- web.New; newSessionStore makes an empty store
  abbrev pub new_handler : OidcConfig → String → Bool → Exec AppError N Handler
  new_handler oidc base_path false = pure (handler no_provider (trim_slashes base_path) none)
  new_handler oidc base_path true = do
    auth ← new_auth_provider oidc
    pure (handler auth (trim_slashes base_path) (some []))

  -- what follows once the settings are loaded
  abbrev pub wire : Settings → Exec AppError N (App C)
  wire cfg = do
    lift (check_level (o.string "log.level" cfg))
    default_path ← lift (known (database_path o.environment))
    db ← database_open (o.string_or "database.path" default_path cfg)
    token_verifier ← verifier_for (oidc_cfg_from_config cfg) (o.bool "oidc.enabled" cfg)
    web_handler ←
        new_handler (oidc_cfg_from_config cfg) (o.string_or "web.base-path" "" cfg)
          (o.bool "oidc.enabled" cfg)
    pure (record {
      config = cfg;
      db = db;
      grpc_addr = text "grpc.address" cfg;
      token_verifier = token_verifier;
      web_handler = web_handler;
    })

  unfoldable pub new_app : Exec AppError N (App C)
  unfolding database_open
  new_app = do path ← lift (known (server_config_path o.environment)); cfg ← load path; wire cfg
