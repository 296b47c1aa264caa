-- ===== src/Tests/Services.antt =====
-- The theorems on the interceptor, the web UI, the settings and the client, on concrete inputs.
use Prim.Native.String.{◌++◌ as append}
use tiny_file_watcher.Prelude.{
  arith, ℕ, suc, ◌≡◌, refl, String, true, false, ◌||◌, none, some, List, [], ◌∷◌, ◌==◌, ◌⊎◌,
  if◌then◌else◌, string_comparable,
}
use tiny_file_watcher.Internal.FilePath.{is_sep}
use tiny_file_watcher.Internal.FilePath.Split.{IsElem, spell}
use tiny_file_watcher.Server.Outcome.{ok, err, Exec, Code, unauthenticated}
use tiny_file_watcher.Server.Interceptor.{TokenVerifier, unary_auth, extract_bearer_token}
use tiny_file_watcher.Server.Interceptor.Gate.{Carries, unary_auth-gate}
use tiny_file_watcher.Server.Config.{Settings}
use tiny_file_watcher.Server.Web.Sessions.{valid}
use tiny_file_watcher.Server.Web.Sessions.Lifetime.{
  Event, created, deleted, reaped, after, valid_lem,
}
use tiny_file_watcher.Server.Web.Http.{Request, get, plain, redirect, page, no_data, error}
use tiny_file_watcher.Server.Web.Auth.{
  Handler, AuthProvider, require_auth, handle_callback, create_session,
}
use tiny_file_watcher.Server.Web.Auth.Login.{
  Vouched, handle_callback-Vouched, handle_callback-require_auth,
}
use tiny_file_watcher.Server.Web.Upload.{contains_slash, resolve_upload_dir}
use tiny_file_watcher.Server.Web.Upload.Folder.{resolve_upload_dir_lem}
use tiny_file_watcher.Client.Credentials.{TokenSet, TokenCredentials, get_request_metadata}
use tiny_file_watcher.Client.Credentials.Header.{get_request_metadata-extract}

abbrev verifier : TokenVerifier
verifier token = if token == "good" then ok tt else err tt

abbrev answering : Exec Code ℕ String
answering s = (ok "answer", s)

unary_auth-gate_example :
    (Carries verifier (some ("Bearer good" ∷ []))
      × (unary_auth verifier (some ("Bearer good" ∷ [])) answering 0 ≡ (ok "answer", 0)))
    ⊎ ((¬ Carries verifier (some ("Bearer good" ∷ [])))
        × (unary_auth verifier (some ("Bearer good" ∷ [])) answering 0 ≡ (err unauthenticated, 0)))
unary_auth-gate_example = unary_auth-gate verifier 0 (some ("Bearer good" ∷ [])) answering

abbrev settings : Settings
settings = ("grpc.address", ":50051") ∷ ("web.enabled", "true") ∷ []

-- a session is created, another one deleted, and the store is cleaned
abbrev events : List Event
events = reaped 900000000000 ∷ deleted "b" ∷ created "a" 5 ∷ created "b" 3 ∷ []

valid_lem_example : valid "a" 1000000000000 (after events) ≡ true
valid_lem_example =
    valid_lem "a" 1000000000000 events (omega arith, (omega arith, (omega arith, tt)))

abbrev pub provider : AuthProvider
provider = record {
  auth_code_url = λ state. append "https://id?state=" state;
  exchange = λ code. ok (some "token");
  verify = λ token. ok tt;
}

abbrev pub handler : Handler
handler = record { auth = provider; base_path = "/ui"; sessions = some [] }

abbrev pub callback : Request
callback = record {
  method = get;
  path = "auth" ∷ "callback" ∷ [];
  form = none;
  multipart = none;
  cookie = λ name. if name == "tfw_oidc_state" then some "xyz" else none;
  query = λ key. if key == "state" then "xyz" else if key == "code" then "c" else "";
  now = 10;
  random_token = "session";
}

abbrev later : Request
later = record callback {
  cookie = λ name. if name == "tfw_session" then some "session" else none;
  now = 20;
}

handle_callback-Vouched_example :
    (Vouched handler callback
      × ((handle_callback handler callback).0.reply ≡ redirect "/ui/")
      × ((handle_callback handler callback).1
          ≡ record handler { sessions = create_session callback (some []) }))
    ⊎ ((code : ℕ) × ((handle_callback handler callback).0.reply ≡ error code)
        × ((handle_callback handler callback).1 ≡ handler))
handle_callback-Vouched_example = handle_callback-Vouched handler callback

handle_callback-require_auth_example :
    let opened = (handle_callback handler callback).1 in
    require_auth (λ r n. (plain (page "index.html" no_data), suc n)) opened later 3
    ≡ (plain (page "index.html" no_data), 4)
handle_callback-require_auth_example =
    handle_callback-require_auth handler callback later []
      (λ r n. (plain (page "index.html" no_data), suc n)) 3 refl (refl, refl, "token", refl, refl)
      refl

srv : IsElem "srv"
unfolding is_sep
srv = record { plain = refl; not_empty = refl; not_dot = refl; not_dots = refl }

abbrev folder : String
folder = "in"

resolve_upload_dir_lem_example :
    ((folder ≡ "") × (resolve_upload_dir (spell [] "srv") folder ≡ some (spell [] "srv")))
    ⊎ ((contains_slash folder || folder == ".." ≡ true)
        × (resolve_upload_dir (spell [] "srv") folder ≡ none))
    ⊎ (IsElem folder
        × (resolve_upload_dir (spell [] "srv") folder ≡ some (spell ("srv" ∷ []) folder)))
resolve_upload_dir_lem_example = resolve_upload_dir_lem [] "srv" folder tt srv refl

abbrev stored : TokenSet
stored = record { id_token = "abc"; refresh_token = ""; expiry = 0 }

abbrev credentials : TokenCredentials ℕ
credentials = record {
  load = λ f. (ok stored, f);
  save = λ ts f. (ok tt, f);
  token = λ refresh. err tt;
}

sends : get_request_metadata credentials 99 0 ≡ (ok "Bearer abc", 0)
unfolding get_request_metadata
sends = refl

get_request_metadata-extract_example :
    (token : String) × ((token == "") ≡ false)
    × ("Bearer abc" ≡ append "Bearer " token)
    × (extract_bearer_token (some ("Bearer abc" ∷ [])) ≡ ok token)
get_request_metadata-extract_example =
    get_request_metadata-extract credentials 99 0 0 "Bearer abc" sends
