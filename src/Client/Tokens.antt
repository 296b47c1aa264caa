-- ===== src/Client/Tokens.antt =====
-- client/auth/tokens.go: the file with the tokens. The calls of package os are those of an interface
-- over the state `F` of the files; the bytes that json.Marshal gives for a token set are the token
-- set, since json.Unmarshal gives it back.
use tiny_file_watcher.Prelude.{ℕ, ◌≡◌, String}
use tiny_file_watcher.Internal.FilePath.{dir}
use tiny_file_watcher.Server.Outcome.{Result, ok, err, Exec, ◌>>◌}
use tiny_file_watcher.Client.Credentials.{
  TokenSet, LoadError, no_file, unreadable, TokenCredentials, Refreshed,
}

pub data OsError : Type 0 where
  not_exist os_failure : OsError

-- what a file holds: tokens, or what is no JSON of tokens
pub data Content : Type 0 where
  tokens : TokenSet → Content
  other_bytes : Content

-- os.MkdirAll, os.WriteFile with their modes, os.ReadFile and os.Remove
pub record Os (F : Type 0) : Type 0 where
  pub mkdir_all : String → ℕ → Exec OsError F (Unit {0})
  pub write_file : String → Content → ℕ → Exec OsError F (Unit {0})
  pub read_file : String → Exec OsError F Content
  pub remove : String → Exec OsError F (Unit {0})

-- what the file of that path holds after it is written, and after it is removed or was not there
pub record IsStore {F : Type 0} (os : Os F) (path : String) : Type 0 where
  pub written :
      (c : Content) (mode : ℕ) (f f' : F)
      → os.write_file path c mode f ≡ (ok tt, f')
      → os.read_file path f' ≡ (ok c, f')
  pub removed :
      (f f' : F) → os.remove path f ≡ (ok tt, f') → os.read_file path f' ≡ (err not_exist, f')
  pub absent :
      (f f' : F)
      → os.remove path f ≡ (err not_exist, f')
      → os.read_file path f' ≡ (err not_exist, f')

abbrev parsed : Content → Result LoadError TokenSet
parsed (tokens ts) = ok ts
parsed other_bytes = err unreadable

abbrev loaded : Result OsError Content → Result LoadError TokenSet
loaded (ok c) = parsed c
loaded (err not_exist) = err no_file
loaded (err os_failure) = err unreadable

abbrev cleared : Result OsError (Unit {0}) → Result OsError (Unit {0})
cleared (ok t) = ok tt
cleared (err not_exist) = ok tt
cleared (err os_failure) = err os_failure

module _ {F : Type 0} (os : Os F) (path : String) where
  -- the modes are 0700 and 0600
  unfoldable pub save_tokens : TokenSet → Exec OsError F (Unit {0})
  save_tokens ts = do os.mkdir_all (dir path) 448; os.write_file path (tokens ts) 384

  unfoldable pub load_tokens : Exec LoadError F TokenSet
  load_tokens f = let (content, f') = os.read_file path f in (loaded content, f')

  unfoldable pub clear_tokens : Exec OsError F (Unit {0})
  clear_tokens f = let (result, f') = os.remove path f in (cleared result, f')

  -- the credentials over the file; the provider answers a refresh
  abbrev ignore_error : Exec OsError F (Unit {0}) → Exec (Unit {0}) F (Unit {0})
  ignore_error m f = let (r, f') = m f in (elim r [ ok t ↦ ok tt | err e ↦ err tt ], f')

  abbrev pub token_credentials : (String → Result (Unit {0}) Refreshed) → TokenCredentials F
  token_credentials token = record {
    load = load_tokens;
    save = λ ts. ignore_error (save_tokens ts);
    token = token;
  }
