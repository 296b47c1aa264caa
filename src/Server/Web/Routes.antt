-- ===== src/Server/Web/Routes.antt =====
-- server/web/handler.go: the routes that New registers and how ServeHTTP serves a request. The mux
-- is that of net/http: no two patterns of a method fit one path, a wildcard stands for one text that
-- is not empty, GET is also HEAD, and a path that fits only with another method is answered 405.
pub mod Gate
use tiny_file_watcher.Prelude.{
  ℕ, String, Bool, true, false, Option, none, some, List, [], ◌∷◌, ◌++◌, ◌==◌, if◌then◌else◌,
}
use tiny_file_watcher.Server.Outcome.{Result, ok, err}
use tiny_file_watcher.Server.Web.Sessions.{SessionStore}
use tiny_file_watcher.Server.Web.Http.{
  Method, get, head, post, other_method, Request, Reply, Response, error, uploaded, plain,
}
use tiny_file_watcher.Server.Web.Auth.{
  Handler, HandlerFunc, require_auth, handle_login_page, handle_login, handle_callback,
  handle_logout,
}
use tiny_file_watcher.Server.Web.Upload.{Disk, Status, Form, handle_upload}
use tiny_file_watcher.Server.Web.Services.{Services}
use tiny_file_watcher.Server.Web.Watchers.{
  Answering, handle_dashboard, handle_watcher_list, handle_watcher_detail,
}
use tiny_file_watcher.Server.Web.Actions.{handle_sync, handle_flush}
use tiny_file_watcher.Server.Web.Machines.{
  handle_machine_list, handle_machine_create, handle_machine_detail, handle_machine_delete,
}

pub data Segment : Type 0 where
  lit : String → Segment
  wildcard : Segment

-- the handlers of the login, and those behind requireAuth, which get the path's `{name}`
pub data Endpoint (S : Type 0) : Type 0 where
  open_to_all : HandlerFunc → Endpoint S
  guarded : (String → Request → Answering S) → Endpoint S

pub record Route (S : Type 0) : Type 0 where
  pub method : Method
  pub pattern : List Segment
  pub endpoint : Endpoint S

module _ {S : Type 0} (svc : Services S) (disk : Disk S) where
  abbrev upload_reply : Result Status (List String) × S → Reply × S
  upload_reply (ok saved, s) = (uploaded saved, s)
  upload_reply (err status, s) = (error status, s)

  -- ListWatchers is called before the form is read
  abbrev upload : String → Option Form → Answering S
  upload name form s =
      let (listed, s') = svc.watcher_svc.list_watchers none s in
      upload_reply (handle_upload disk listed form name s')

  abbrev auth_routes : List (Route S)
  auth_routes =
      record {
        method = get;
        pattern = lit "auth" ∷ lit "login" ∷ [];
        endpoint = open_to_all handle_login_page;
      }
      ∷ record {
        method = get;
        pattern = lit "auth" ∷ lit "authorize" ∷ [];
        endpoint = open_to_all handle_login;
      }
      ∷ record {
        method = get;
        pattern = lit "auth" ∷ lit "callback" ∷ [];
        endpoint = open_to_all handle_callback;
      }
      ∷ record {
        method = post;
        pattern = lit "auth" ∷ lit "logout" ∷ [];
        endpoint = open_to_all handle_logout;
      }
      ∷ []

  abbrev on : Method → List Segment → (String → Request → Answering S) → Route S
  on method pattern handler = record {
    method = method;
    pattern = pattern;
    endpoint = guarded handler;
  }

  abbrev app_routes : List (Route S)
  app_routes =
      on get (lit "" ∷ []) (λ n r. handle_dashboard svc)
      ∷ on get (lit "watchers" ∷ []) (λ n r. handle_watcher_list svc)
      ∷ on get (lit "watchers" ∷ wildcard ∷ []) (λ n r. handle_watcher_detail svc n)
      ∷ on post (lit "watchers" ∷ wildcard ∷ lit "sync" ∷ []) (λ n r. handle_sync svc n)
      ∷ on post (lit "watchers" ∷ wildcard ∷ lit "flush" ∷ []) (λ n r. handle_flush svc n)
      ∷ on post (lit "watchers" ∷ wildcard ∷ lit "upload" ∷ []) (λ n r. upload n r.multipart)
      ∷ on get (lit "machines" ∷ []) (λ n r. handle_machine_list svc)
      ∷ on post (lit "machines" ∷ []) (λ n r. handle_machine_create svc r.form)
      ∷ on get (lit "machines" ∷ wildcard ∷ []) (λ n r. handle_machine_detail svc n)
      ∷ on post (lit "machines" ∷ wildcard ∷ lit "delete" ∷ []) (λ n r. handle_machine_delete svc n)
      ∷ []

  -- the routes of the login exist only with OIDC
  unfoldable pub routes : Option SessionStore → List (Route S)
  routes none = app_routes
  routes (some sessions) = auth_routes ++ app_routes

-- the path fits the pattern: the value of its wildcard, the empty text if it has none
unfoldable pub path_match : List Segment → List String → String → Option String
path_match [] [] value = some value
path_match [] (p ∷ path) value = none
path_match (s ∷ pattern) [] value = none
path_match (lit text ∷ pattern) (p ∷ path) value =
    let rest = path_match pattern path value in if text == p then rest else none
path_match (wildcard ∷ pattern) (p ∷ path) value =
    let rest = path_match pattern path p in if p == "" then none else rest

abbrev same_method : Method → Method → Bool
same_method get get = true
same_method get head = true
same_method get m = false
same_method post post = true
same_method post m = false
same_method head m = false
same_method other_method m = false

-- a route that fits with its wildcard's value, or the status of the mux: 405 if a path fits
unfoldable pub find_route :
    {S : Type 0} → ℕ → Method → List String → List (Route S) → Result ℕ (Endpoint S × String)
unfolding path_match
find_route status method path [] = err status
find_route status method path (r ∷ rs) = elim (path_match r.pattern path "") [
  | none ↦ find_route status method path rs
  | some value ↦
      let other = find_route 405 method path rs in
      if same_method r.method method then ok (r.endpoint, value) else other
]

abbrev respond :
    {S : Type 0} → (String → Request → Answering S) → String → Request → S → Response × S
respond handler value r s = let (reply, s') = handler value r s in (plain reply, s')

abbrev serve :
    {S : Type 0} → Result ℕ (Endpoint S × String) → Request → Handler × S → Response × (Handler × S)
serve (err status) r (h, s) = (plain (error status), (h, s))
serve (ok (open_to_all handler, value)) r (h, s) =
    let (response, h') = handler h r in (response, (h', s))
serve (ok (guarded handler, value)) r (h, s) =
    let (response, s') = require_auth (respond handler value) h r s in (response, (h, s'))

unfoldable pub serve_http :
    {S : Type 0} → Services S → Disk S → Request → Handler × S → Response × (Handler × S)
unfolding routes find_route
serve_http svc disk r (h, s) =
    serve (find_route 404 r.method r.path (routes svc disk h.sessions)) r (h, s)
