-- ===== src/Client/Cmd/Login.antt =====
-- client/cmd/login.go: `tfw login` by the device flow, and `tfw logout`. The provider is a parameter.
pub mod Stored
use tiny_file_watcher.Prelude.{
  ℕ, ◌+◌, ◌*◌, String, Option, none, some, List, [], ◌∷◌, ◌++◌, ◌==◌, if◌then◌else◌,
}
use tiny_file_watcher.Server.Outcome.{
  Result, ok, err, Exec, pure, fail, lift, or_status, ◌>>=◌, ◌>>◌,
}
use tiny_file_watcher.Client.Credentials.{TokenSet}
use tiny_file_watcher.Client.Terminal.{Line, line, text, Session}
use tiny_file_watcher.Client.Tokens.{Os, save_tokens, clear_tokens}

-- what is shown to the user, and what the device flow ends with; no expiry is the zero time
pub record DeviceAuth : Type 0 where
  pub verification_uri_complete : String
  pub user_code : String

pub record DeviceToken : Type 0 where
  pub id_token : Option String
  pub refresh_token : String
  pub expiry : Option ℕ

-- go-oidc and oauth2, after the configuration is loaded
pub record Provider : Type 0 where
  pub discover : Result (Unit {0}) (Unit {0})
  pub device_auth : Result (Unit {0}) DeviceAuth
  pub device_access_token : Result (Unit {0}) DeviceToken

pub data LoginError : Type 0 where
  load_config oidc_discovery device_auth_request device_access no_id_token save_failed
        clear_failed :
      LoginError

-- five minutes if the token does not say
abbrev pub expiry_or : ℕ → Option ℕ → ℕ
expiry_or now none = now + 300 * 1000000000
expiry_or now (some t) = t

module _ {F : Type 0} where
  -- the files are the state that the session works on
  abbrev say : Line → Exec LoginError (Session F) (Unit {0})
  say l s = (ok tt, record s { printed = s.printed ++ l ∷ [] })

  abbrev on_files : {E A : Type 0} → LoginError → Exec E F A → Exec LoginError (Session F) A
  on_files e m s = let (r, f) = or_status e m s.server in (r, record s { server = f })

  abbrev raw_id_token : Option String → Exec LoginError (Session F) String
  raw_id_token none = fail no_id_token
  raw_id_token (some t) = if t == "" then fail no_id_token else pure t

  unfoldable pub login :
      Result (Unit {0}) Provider → Os F → String → ℕ → Exec LoginError (Session F) (Unit {0})
  login config os path now = do
    provider ← or_status load_config (lift config)
    or_status oidc_discovery (lift provider.discover)
    device ← or_status device_auth_request (lift provider.device_auth)
    say (line (text "Open the following URL to log in:" ∷ []))
    say (line (text device.verification_uri_complete ∷ []))
    say (line (text "And enter code: " ∷ text device.user_code ∷ []))
    token ← or_status device_access (lift provider.device_access_token)
    id_token ← raw_id_token token.id_token
    on_files save_failed (
        save_tokens os path (record {
          id_token = id_token;
          refresh_token = token.refresh_token;
          expiry = expiry_or now token.expiry;
        }))
    say (line (text "Login successful. Tokens saved to ~/.tfw/tokens.json" ∷ []))

  unfoldable pub logout : Os F → String → Exec LoginError (Session F) (Unit {0})
  logout os path = do
    on_files clear_failed (clear_tokens os path)
    say (line (text "Logged out. Tokens removed." ∷ []))
