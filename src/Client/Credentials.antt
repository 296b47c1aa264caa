-- ===== src/Client/Credentials.antt =====
-- client/auth/grpc_creds.go: the Authorization header of a call. `F` is the state of the tokens
-- file (client/auth/tokens.go); the provider that refreshes tokens is a parameter.
pub mod Header
use Prim.Native.String.{◌++◌ as append}
use tiny_file_watcher.Prelude.{
  ℕ, ◌+◌, ◌*◌, String, Bool, true, false, not, ◌&&◌, Option, none, some, ◌==◌, ltb, if◌then◌else◌,
}
use tiny_file_watcher.Server.Outcome.{Result, ok, err, Exec, pure, fail, lift, ◌>>=◌, ◌>>◌}

pub record TokenSet : Type 0 where
  pub id_token : String
  pub refresh_token : String
  pub expiry : ℕ

-- why LoadTokens fails: os.ErrNotExist, or all else
pub data LoadError : Type 0 where
  no_file unreadable : LoadError

pub data CredentialsError : Type 0 where
  not_logged_in load_tokens refresh_failed : CredentialsError

-- the answer to a refresh: the id_token if there is one
pub record Refreshed : Type 0 where
  pub id_token : Option String
  pub refresh_token : String
  pub expiry : ℕ

pub record TokenCredentials (F : Type 0) : Type 0 where
  -- LoadTokens and SaveTokens
  pub load : Exec LoadError F TokenSet
  pub save : TokenSet → Exec (Unit {0}) F (Unit {0})
  -- the provider's discovery and its answer to a refresh token
  pub token : String → Result (Unit {0}) Refreshed

abbrev of_load : LoadError → CredentialsError
of_load no_file = not_logged_in
of_load unreadable = load_tokens

abbrev fresh : Option String → Refreshed → Result CredentialsError (String × TokenSet)
fresh none r = err refresh_failed
fresh (some raw_id_token) r =
    if raw_id_token == ""
    then err refresh_failed
    else ok (
      raw_id_token,
      record { id_token = raw_id_token; refresh_token = r.refresh_token; expiry = r.expiry },
    )

abbrev refreshed : Result (Unit {0}) Refreshed → Result CredentialsError (String × TokenSet)
refreshed (err e) = err refresh_failed
refreshed (ok r) = fresh r.id_token r

module _ {F : Type 0} (c : TokenCredentials F) where
  unfoldable pub refresh_id_token : String → Result CredentialsError (String × TokenSet)
  refresh_id_token refresh_token = refreshed (c.token refresh_token)

  abbrev loaded : Result LoadError TokenSet × F → Result CredentialsError TokenSet × F
  loaded (ok ts, f) = (ok ts, f)
  loaded (err e, f) = (err (of_load e), f)

  -- a failure to save is only reported
  abbrev save_anyway : TokenSet → Exec CredentialsError F (Unit {0})
  save_anyway ts f = (ok tt, (c.save ts f).1)

  abbrev header : String → String
  header token = append "Bearer " token

  abbrev with_fresh : Exec CredentialsError F (String × TokenSet) → Exec CredentialsError F String
  with_fresh m = do (new_id_token, new_ts) ← m; save_anyway new_ts; pure (header new_id_token)

  -- the token is refreshed from 10 seconds before it expires
  abbrev expiring : ℕ → TokenSet → Bool
  expiring now ts = ltb ts.expiry (now + 10 * 1000000000) && not (ts.refresh_token == "")

  abbrev choose : ℕ → TokenSet → Exec CredentialsError F String
  choose now ts =
      if expiring now ts
      then with_fresh (lift (refresh_id_token ts.refresh_token))
      else if ts.id_token == ""
      then fail not_logged_in
      else pure (header ts.id_token)

  unfoldable pub get_request_metadata : ℕ → Exec CredentialsError F String
  unfolding refresh_id_token
  get_request_metadata now = do ts ← λ f. loaded (c.load f); choose now ts
