-- ===== src/Client/Config.antt =====
-- client/config/config.go: which settings the client starts with.
pub mod Needed
use tiny_file_watcher.Prelude.{String, Option, none, List, [], ◌∷◌, ◌==◌, if◌then◌else◌}
use tiny_file_watcher.Server.Config.{Settings, value, require, or_else}

abbrev pub oidc_keys : List String
oidc_keys = "oidc.issuer" ∷ "oidc.device-client-id" ∷ []

unfoldable pub validate_oidc_config : Settings → Option String
validate_oidc_config settings =
    if value "oidc.enabled" settings == "true" then require oidc_keys settings else none

unfoldable pub client_config_validator : Settings → Option String
unfolding validate_oidc_config
client_config_validator settings =
    or_else (require ("grpc.address" ∷ []) settings) (validate_oidc_config settings)
