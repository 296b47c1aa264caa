-- ===== src/Server/Web/Routes/Gate.antt =====
-- server/web/handler.go: what a request without a session reaches.
use Prim.Native.String.{◌++◌ as append}
use tiny_file_watcher.Prelude.{◌≡◌, String, List, ◌∷◌, ◌⊎◌}
use tiny_file_watcher.Server.Web.Http.{Request, Response, error, redirect, plain}
use tiny_file_watcher.Server.Web.Auth.{Handler}
use tiny_file_watcher.Server.Web.Services.{Services}
use tiny_file_watcher.Server.Web.Routes.{Endpoint, open_to_all, guarded}

abbrev IsGuarded : {S : Type 0} → Endpoint S → Type 0
IsGuarded (open_to_all f) = ⊥
IsGuarded (guarded f) = Unit

-- the path is below /auth
abbrev pub IsAuthPath : List String → Type 0
IsAuthPath path = (rest : List String) × (path ≡ "auth" ∷ rest)

module _ {S : Type 0} (h : Handler) (r : Request) (s : S) where
  -- the state of the services is kept, and the answer comes from the login or sends the browser there
  abbrev pub TurnedAway : Response × (Handler × S) → Type 0
  TurnedAway result =
      (result.1.1 ≡ s)
      × (IsAuthPath r.path
          ⊎ (result ≡ (plain (redirect (append h.base_path "/auth/login")), (h, s)))
          ⊎ (result ≡ (plain (error 404), (h, s)))
          ⊎ (result ≡ (plain (error 405), (h, s))))
