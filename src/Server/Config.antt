-- ===== src/Server/Config.antt =====
-- server/config/config.go: which settings the server starts with.
pub mod Required
use tiny_file_watcher.Prelude.{
  String, Bool, Option, none, some, List, [], ◌∷◌, ◌==◌, any, if◌then◌else◌,
}

-- a Go map of settings: the first entry of a key is its value
abbrev pub Settings : Type 0
Settings = List (String × String)

abbrev is_key : String → String × String → Bool
is_key key (k, v) = k == key

-- `_, ok := settings[key]`
abbrev pub is_set : String → Settings → Bool
is_set key settings = any (is_key key) settings

-- `settings[key]`, the empty string if it is not set
abbrev pub value : String → Settings → String
value key [] = ""
value key ((k, v) ∷ rest) = if k == key then v else value key rest

-- `none`, or the setting that is required and not set
unfoldable pub require : List String → Settings → Option String
require [] settings = none
require (key ∷ keys) settings =
    let rest = require keys settings in if is_set key settings then rest else some key

abbrev pub or_else : Option String → Option String → Option String
or_else none second = second
or_else (some key) second = some key

unfoldable pub validate_debug_ui_config : Settings → Option String
unfolding require
validate_debug_ui_config settings =
    if value "debug-ui.enabled" settings == "true"
    then require ("debug-ui.address" ∷ []) settings
    else none

abbrev pub web_keys : List String
web_keys =
    "web.address" ∷ "oidc.enabled" ∷ "oidc.issuer" ∷ "oidc.client-id" ∷ "oidc.client-secret"
    ∷ "oidc.redirect-uri" ∷ []

unfoldable pub validate_web_config : Settings → Option String
unfolding require
validate_web_config settings =
    if value "web.enabled" settings == "true" then require web_keys settings else none

unfoldable pub server_config_validator : Settings → Option String
unfolding validate_debug_ui_config validate_web_config
server_config_validator settings =
    or_else (require ("grpc.address" ∷ []) settings)
      (or_else (validate_debug_ui_config settings) (validate_web_config settings))
