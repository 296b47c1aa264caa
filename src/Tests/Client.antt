-- ===== src/Tests/Client.antt =====
-- The theorems on the commands of the client, on concrete inputs.
use Prim.Native.String.{◌++◌ as append}
use tiny_file_watcher.Prelude.{
  arith, ℕ, ◌≡◌, refl, sym, ap, ◌∙◌, String, false, none, some, Option, List, [], ◌∷◌, ◌++◌, ◌==◌,
  ◌⊎◌, map,
}
use tiny_file_watcher.Server.Outcome.{Result, ok, err, Code, internal}
use tiny_file_watcher.Server.Watcher.Service.{
  WatcherService, Guarded, log_event, sync_watcher, stream_sync_watcher,
}
use tiny_file_watcher.Server.Watcher.Service.Creation.{db_service}
use tiny_file_watcher.Server.Watcher.Streaming.{streamed}
use tiny_file_watcher.Server.Watcher.Streaming.Ends.{with_stream, ended, stream_sync_watcher-ended}
use tiny_file_watcher.Server.Database.{Db}
use tiny_file_watcher.Client.Credentials.{TokenSet, Refreshed, get_request_metadata, not_logged_in}
use tiny_file_watcher.Client.Terminal.{Session, line, text}
use tiny_file_watcher.Client.Tokens.{
  Os, IsStore, Content, tokens, OsError, not_exist, token_credentials, save_tokens, clear_tokens,
}
use tiny_file_watcher.Client.Rpc.{WatcherClient}
use tiny_file_watcher.Client.Cmd.Login.{Provider, DeviceToken, login, logout}
use tiny_file_watcher.Client.Cmd.Login.Stored.{login-get_request_metadata}
use tiny_file_watcher.Client.Cmd.Root.{Desk, Outside, execute, watcher_get}
use tiny_file_watcher.Client.Cmd.Root.Gate.{Stays, Connects, execute-cases}
use tiny_file_watcher.Tests.Fixtures.{db, tree, no_rules}

abbrev service : WatcherService Db
service = db_service (λ m. ok tree) no_rules (λ event d. (ok tt, d))

abbrev guarded : Guarded Db
guarded = record { rows = db; locks = [] }

stream_sync_watcher-ended_example :
    (messages : List String) × (stream_sync_watcher
        (streamed service)
        "docs"
        (with_stream guarded [])
      ≡ ended (sync_watcher service "docs" guarded) (map log_event messages))
stream_sync_watcher-ended_example = stream_sync_watcher-ended service "docs" guarded []

-- a client of which nothing is called
abbrev idle : {S : Type 0} → WatcherClient Code S
idle = record {
  list_watched_files = λ name s. (err internal, s);
  list_watchers = λ machine s. (err internal, s);
  get_watcher_by_name = λ name s. (err internal, s);
  create_watcher = λ name source machine flush s. (err internal, s);
  update_watcher = λ id name source s. (err internal, s);
  delete_watcher = λ name s. (err internal, s);
  sync_watcher = λ name s. (err internal, s);
  stream_sync_watcher = λ name s. (err internal, s);
}

abbrev session : Session (Guarded Db)
session = record { server = guarded; printed = [] }

-- one file, of whatever path
abbrev read : Option Content → Result OsError Content × Option Content
read none = (err not_exist, none)
read (some c) = (ok c, some c)

abbrev pub files : Os (Option Content)
files = record {
  mkdir_all = λ dir mode f. (ok tt, f);
  write_file = λ file c mode f. (ok tt, some c);
  read_file = λ file f. read f;
  remove = λ file f. (ok tt, none);
}

files-IsStore : IsStore files "tokens.json"
files-IsStore = record {
  written = λ c mode f f' h. ap (λ x. read x.1) (sym h) ∙ ap (λ x. (ok c, x.1)) h;
  removed = λ f f' h. ap (λ x. read x.1) (sym h) ∙ ap (λ x. (err not_exist, x.1)) h;
  absent = λ f f' h. cc;
}

abbrev issued : DeviceToken
issued = record { id_token = some "abc"; refresh_token = "r"; expiry = some 99000000000 }

abbrev issuer : Provider
issuer = record {
  discover = ok tt;
  device_auth = ok (record { verification_uri_complete = "https://id"; user_code = "42" });
  device_access_token = ok issued;
}

abbrev stored_tokens : TokenSet
stored_tokens = record { id_token = "abc"; refresh_token = "r"; expiry = 99000000000 }

abbrev before_login : Session (Option Content)
before_login = record { server = none; printed = [] }

abbrev after_login : Session (Option Content)
after_login = record {
  server = some (tokens stored_tokens);
  printed =
      line (text "Open the following URL to log in:" ∷ [])
      ∷ line (text "https://id" ∷ [])
      ∷ line (text "And enter code: " ∷ text "42" ∷ [])
      ∷ line (text "Login successful. Tokens saved to ~/.tfw/tokens.json" ∷ [])
      ∷ [];
}

abbrev after_logout : Session (Option Content)
after_logout = record {
  server = none;
  printed = after_login.printed ++ line (text "Logged out. Tokens removed." ∷ []) ∷ [];
}

logs_in : login (ok issuer) files "tokens.json" 1 before_login ≡ (ok tt, after_login)
unfolding login save_tokens
logs_in = refl

logs_out : logout files "tokens.json" after_login ≡ (ok tt, after_logout)
unfolding logout clear_tokens
logs_out = refl

abbrev no_refresh : String → Result (Unit {0}) Refreshed
no_refresh token = err tt

login-get_request_metadata_example :
    (id : String) × (some "abc" ≡ some id)
    × ((id == "") ≡ false)
    × (get_request_metadata
          (token_credentials files "tokens.json" no_refresh)
          5
          (some (tokens stored_tokens))
        ≡ (ok (append "Bearer " id), some (tokens stored_tokens)))
    × (get_request_metadata (token_credentials files "tokens.json" no_refresh) 7 none
        ≡ (err not_logged_in, none))
login-get_request_metadata_example =
    login-get_request_metadata files "tokens.json" files-IsStore issuer issued no_refresh 1 5 7
      before_login after_login after_logout refl logs_in (omega arith) logs_out

-- OIDC is enabled and no tokens are stored
abbrev outside : Outside Code (Option Content) ℕ
outside = record {
  config = record {
    settings = ok (("grpc.address", ":50051") ∷ []);
    bool = λ key cfg. key == "oidc.enabled";
    string = λ key cfg. ":50051";
  };
  new_client = λ address options. err tt;
  provider = λ issuer_url client_id. issuer;
  os = files;
  tokens_path = "tokens.json";
  now = 1;
}

abbrev desk : Desk (Option Content) ℕ
desk = record { files = none; server = 0; printed = [] }

execute-cases_example :
    Stays outside desk (watcher_get "docs") (execute outside (watcher_get "docs") desk)
    ⊎ Connects outside desk (watcher_get "docs") (execute outside (watcher_get "docs") desk)
execute-cases_example = execute-cases outside desk (watcher_get "docs") refl
