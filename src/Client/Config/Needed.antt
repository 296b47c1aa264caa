-- ===== src/Client/Config/Needed.antt =====
-- client/config/config.go: the settings that the client's validator asks for.
use tiny_file_watcher.Prelude.{String, List, [], ◌∷◌, ◌==◌, if◌then◌else◌}
use tiny_file_watcher.Server.Config.{Settings, value}
use tiny_file_watcher.Client.Config.{oidc_keys}

-- the settings that these settings ask for
abbrev pub client_needed : Settings → List String
client_needed settings =
    "grpc.address" ∷ (if value "oidc.enabled" settings == "true" then oidc_keys else [])
