-- ===== src/Server/App/Start/Closed.antt =====
-- server/app.go: whom a started server answers.
use mathlib.Core.Path.{subst}
use tiny_file_watcher.Prelude.{◌≡◌, ◌⊎◌}
use tiny_file_watcher.Internal.TfwPath.{server_config_path, database_path}
use tiny_file_watcher.Server.Outcome.{ok, err, Exec, Code, unauthenticated, lift, pure, bind-ok}
use tiny_file_watcher.Server.Config.{Settings}
use tiny_file_watcher.Server.Interceptor.{TokenVerifier, Metadata, oidc_token_verifier, unary_auth}
use tiny_file_watcher.Server.Interceptor.Gate.{Carries}
use tiny_file_watcher.Server.Web.Services.{Services}
use tiny_file_watcher.Server.App.Start.{
  Surroundings, AppError, App, Provider, verifier_for, new_handler, wire, new_app,
  oidc_cfg_from_config, database_open, check_level, known, load,
}

module _ {N C : Type 0} (o : Surroundings N C) where
  -- the verifier and the handler of a started server are those of its settings
  abbrev pub IsWired : App C → Type 0
  IsWired app =
      let oidc = oidc_cfg_from_config o app.config in
      let enabled = o.bool "oidc.enabled" app.config in
      (n m k : N) × (verifier_for o oidc enabled n ≡ (ok app.token_verifier, m))
      × (new_handler o oidc (o.string_or "web.base-path" "" app.config) enabled m
          ≡ (ok app.web_handler, k))

  pub value : {A : Type 0} (a b : A) (s t : N) → pure {E = AppError} a s ≡ (ok b, t) → a ≡ b
  value a b s t h = cc

  wire-IsWired : (cfg : Settings) (app : App C) (s t : N) → wire o cfg s ≡ (ok app, t) → IsWired app
  wire-IsWired cfg app s t h =
      let oidc = oidc_cfg_from_config o cfg in
      let enabled = o.bool "oidc.enabled" cfg in
      let base_path = o.string_or "web.base-path" "" cfg in
      let (l, s1, a1, h1) = bind-ok (lift (check_level (o.string "log.level" cfg))) _ s t app h in
      let (path, s2, a2, h2) = bind-ok (lift (known (database_path o.environment))) _ s1 t app h1 in
      let (db, s3, a3, h3) =
        bind-ok (database_open o (o.string_or "database.path" path cfg)) _ s2 t app h2 in
      let (v, s4, a4, h4) = bind-ok (verifier_for o oidc enabled) _ s3 t app h3 in
      let (w, s5, a5, h5) = bind-ok (new_handler o oidc base_path enabled) _ s4 t app h4 in
      subst IsWired (value _ app s5 t h5) (s3, s4, s5, a4, a5)

  pub new_app-IsWired : (app : App C) (s t : N) → new_app o s ≡ (ok app, t) → IsWired app
  unfolding new_app
  new_app-IsWired app s t h =
      let (path, s1, a1, h1) =
        bind-ok (lift (known (server_config_path o.environment))) _ s t app h in
      let (cfg, s2, a2, h2) = bind-ok (load o path) _ s1 t app h1 in wire-IsWired cfg app s2 t h2

-- a unary call of a server that uses the first verifier is answered if the second accepts its token,
-- and refused otherwise
abbrev pub IsGate : (S A : Type 0) → TokenVerifier → TokenVerifier → Type 0
IsGate S A used accepted =
    (md : Metadata) (call : Exec Code S A) (st : S)
    → (Carries accepted md × (unary_auth used md call st ≡ call st))
      ⊎ ((¬ Carries accepted md) × (unary_auth used md call st ≡ (err unauthenticated, st)))

module _ {N C : Type 0} (S A : Type 0) (o : Surroundings N C) (app : App C) where
  -- a provider that was found at the issuer of the settings, and whose verifier of the tokens of the
  -- device client decides which calls are answered
  abbrev pub GatedByProvider : Type 0
  GatedByProvider =
      let oidc = oidc_cfg_from_config o app.config in
      (p : Provider) × (n m : N) × (o.new_provider oidc.issuer n ≡ (ok p, m))
      × IsGate S A app.token_verifier (oidc_token_verifier (p.verifier oidc.device_client_id))
