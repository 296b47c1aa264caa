-- ===== src/Tests/Start.antt =====
-- The theorems on the start of the server, on concrete inputs.
use tiny_file_watcher.Prelude.{
  ◌≡◌, refl, ℕ, ◌+◌, String, true, false, none, some, [], ◌∷◌, ◌==◌, if◌then◌else◌,
}
use tiny_file_watcher.Server.Outcome.{Result, ok}
use tiny_file_watcher.Server.Config.{Settings, is_set, value}
use tiny_file_watcher.Server.Interceptor.{noop_verifier, oidc_token_verifier}
use tiny_file_watcher.Server.Web.Services.{Services}
use tiny_file_watcher.Server.App.Start.{
  Surroundings, App, Provider, handler, no_provider, trim_slashes,
}
use tiny_file_watcher.Server.App.Start.Levels.{is_level}
use tiny_file_watcher.Client.Cmd.Root.{ConfigFile, DialOptions}

levels :
    (is_level "info" ≡ true)
    × (is_level "WARN-4" ≡ true)
    × (is_level "loud" ≡ false)
    × (is_level "debug+" ≡ false)
unfolding is_level
levels = (refl, refl, refl, refl)

trims : trim_slashes "/ui//" ≡ "/ui"
unfolding trim_slashes
trims = refl

-- every token is good for every client
abbrev id_provider : Provider
id_provider = record {
  verifier = λ client_id token. ok tt;
  auth_code_url = λ oidc state. state;
  exchange = λ oidc code. ok (some code);
}

-- the settings of the file are given; the state counts the calls
abbrev around : Settings → Surroundings ℕ ℕ
around settings = record {
  environment = record { config_path = "/etc/tfw"; home = none };
  yaml_file = λ path n. (ok settings, n + 1);
  bool = λ key cfg. value key cfg == "true";
  string = λ key cfg. (value key cfg, is_set key cfg);
  string_or = λ key other cfg. if is_set key cfg then value key cfg else other;
  sql_open = λ path n. (ok n, n + 1);
  sql_exec = λ conn statement n. (ok tt, n + 1);
  new_provider = λ issuer n. (ok id_provider, n + 1);
}

abbrev with_oidc : Settings
with_oidc =
    ("grpc.address", ":50051")
    ∷ ("oidc.enabled", "true")
    ∷ ("oidc.issuer", "https://id")
    ∷ ("web.base-path", "/ui/")
    ∷ []

abbrev without_oidc : Settings
without_oidc = ("grpc.address", ":50051") ∷ ("log.level", "warn") ∷ []

abbrev secured : App ℕ
secured = record {
  config = with_oidc;
  db = 1;
  grpc_addr = ":50051";
  token_verifier = oidc_token_verifier (id_provider.verifier "");
  web_handler = record {
    auth = record {
      auth_code_url = λ state. state;
      exchange = λ code. ok (some code);
      verify = λ token. ok tt;
    };
    base_path = "/ui";
    sessions = some [];
  };
}

abbrev unsecured : App ℕ
unsecured = record {
  config = without_oidc;
  db = 1;
  grpc_addr = ":50051";
  token_verifier = noop_verifier;
  web_handler = handler no_provider "" none;
}

abbrev client_file : ConfigFile
client_file = record {
  settings = ok (("grpc.address", ":50051") ∷ []);
  bool = λ key cfg. value key cfg == "true";
  string = λ key cfg. value key cfg;
}

abbrev new_client : String → DialOptions → Result (Unit {0}) DialOptions
new_client address options = ok options
