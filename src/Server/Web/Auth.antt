-- ===== src/Server/Web/Auth.antt =====
-- server/web/auth.go: the handlers of the login by OIDC and the middleware requireAuth. Each request
-- comes with the time and the random token of its handler; the provider is a parameter.
pub mod Login
use Prim.Native.String.{◌++◌ as append}
use tiny_file_watcher.Prelude.{
  ℕ, String, Bool, true, false, not, ◌||◌, Option, none, some, List, [], ◌∷◌, ◌++◌, ◌==◌,
  if◌then◌else◌,
}
use tiny_file_watcher.Server.Outcome.{Result, ok, err}
use tiny_file_watcher.Server.Web.Http.{
  Request, Cookie, seconds, expired, Response, Reply, page, no_data, redirect, error, plain,
}
use tiny_file_watcher.Server.Web.Sessions
use tiny_file_watcher.Server.Web.Sessions.{SessionStore}

-- golang.org/x/oauth2 and go-oidc: where the login starts, the id_token for a code (none if the
-- answer has none), and whether an id_token is good
pub record AuthProvider : Type 0 where
  pub auth_code_url : String → String
  pub exchange : String → Result (Unit {0}) (Option String)
  pub verify : String → Result (Unit {0}) (Unit {0})

pub record Handler : Type 0 where
  pub auth : AuthProvider
  pub base_path : String
  -- nil when OIDC is disabled
  pub sessions : Option SessionStore

abbrev session_cookie_name : String
session_cookie_name = "tfw_session"

abbrev state_cookie_name : String
state_cookie_name = "tfw_oidc_state"

abbrev valid_cookie : Option String → ℕ → SessionStore → Bool
valid_cookie none now s = false
valid_cookie (some id) now s = Sessions.valid id now s

abbrev authenticated : Option SessionStore → Request → Bool
authenticated none r = true
authenticated (some s) r = valid_cookie (r.cookie session_cookie_name) r.now s

unfoldable pub is_authenticated : Handler → Request → Bool
is_authenticated h r = authenticated h.sessions r

-- the middleware, over a handler that may change the state `S` of what is behind it
unfoldable pub require_auth :
    {S : Type 0} → (Request → S → Response × S) → Handler → Request → S → Response × S
unfolding is_authenticated
require_auth next h r s =
    let served = next r s in
    if not (is_authenticated h r)
    then (plain (redirect (append h.base_path "/auth/login")), s)
    else served

-- a handler of the login answers and may change the sessions
abbrev pub HandlerFunc : Type 0
HandlerFunc = Handler → Request → Response × Handler

unfoldable pub handle_login_page : HandlerFunc
unfolding is_authenticated
handle_login_page h r =
    if is_authenticated h r
    then (plain (redirect (append h.base_path "/")), h)
    else (plain (page "login.html" no_data), h)

unfoldable pub handle_login : HandlerFunc
handle_login h r = (
  record {
    cookies =
        record {
          name = state_cookie_name;
          value = r.random_token;
          path = append h.base_path "/auth/callback";
          max_age = seconds 300;
        }
        ∷ [];
    reply = redirect (h.auth.auth_code_url r.random_token);
  },
  h,
)

abbrev same_state : Option String → String → Bool
same_state none state = false
same_state (some value) state = value == state

-- the state cookie is cleared
abbrev cleared : Handler → Cookie
cleared h = record {
  name = state_cookie_name;
  value = "";
  path = append h.base_path "/auth/callback";
  max_age = expired;
}

abbrev failing : Handler → ℕ → Response × Handler
failing h code = (record { cookies = cleared h ∷ []; reply = error code }, h)

abbrev pub create_session : Request → Option SessionStore → Option SessionStore
create_session r none = none
create_session r (some s) = some (Sessions.create r.random_token r.now s)

abbrev logged_in : Handler → Request → Response × Handler
logged_in h r = (
  record {
    cookies =
        cleared h
        ∷ record {
          name = session_cookie_name;
          value = r.random_token;
          path = append h.base_path "/";
          max_age = seconds 43200;
        }
        ∷ [];
    reply = redirect (append h.base_path "/");
  },
  record h { sessions = create_session r h.sessions },
)

abbrev verified : Handler → Request → Result (Unit {0}) (Unit {0}) → Response × Handler
verified h r (err e) = failing h 401
verified h r (ok t) = logged_in h r

abbrev exchanged : Handler → Request → Result (Unit {0}) (Option String) → Response × Handler
exchanged h r (err e) = failing h 500
exchanged h r (ok none) = failing h 500
exchanged h r (ok (some raw_id_token)) = verified h r (h.auth.verify raw_id_token)

unfoldable pub handle_callback : HandlerFunc
handle_callback h r =
    if not (same_state (r.cookie state_cookie_name) (r.query "state"))
    then (plain (error 400), h)
    else if r.query "code" == ""
    then failing h 400
    else exchanged h r (h.auth.exchange (r.query "code"))

abbrev delete_session : Option String → Option SessionStore → Option SessionStore
delete_session none s = s
delete_session (some id) none = none
delete_session (some id) (some s) = some (Sessions.delete id s)

unfoldable pub handle_logout : HandlerFunc
handle_logout h r = (
  record {
    cookies =
        record {
          name = session_cookie_name;
          value = "";
          path = append h.base_path "/";
          max_age = expired;
        }
        ∷ [];
    reply = redirect (append h.base_path "/auth/login");
  },
  record h { sessions = delete_session (r.cookie session_cookie_name) h.sessions },
)
