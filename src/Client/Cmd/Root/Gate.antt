-- ===== src/Client/Cmd/Root/Gate.antt =====
-- client/cmd/root.go: which commands reach the server, and over what connection.
use tiny_file_watcher.Prelude.{
  ◌≡◌, refl, Bool, true, false, none, some, ◌⊎◌, inl, inr, Bool-cases, if◌then◌else◌,
}
use tiny_file_watcher.Server.Outcome.{Result, ok, err, outcome-cases, result-cases}
use tiny_file_watcher.Server.Config.{Settings}
use tiny_file_watcher.Client.Credentials.{TokenSet}
use tiny_file_watcher.Client.Tokens.{load_tokens}
use tiny_file_watcher.Client.Rpc.{Conn}
use tiny_file_watcher.Client.Cmd.Root.{
  DialError, DialOptions, load_client_config, new_token_credentials, dial, Command, run_e, RunError,
  dial_error, Desk, dials, on_server, Outside, execute, of_load, could_not_connect, bad_config,
}

module _ {E F S : Type 0} (o : Outside E F S) (d : Desk F S) (cmd : Command) where
  abbrev oidc : Settings → Bool
  oidc cfg = o.config.bool "oidc.enabled" cfg

  -- the options of the connection for these settings
  abbrev pub options : Settings → DialOptions
  options cfg = record {
    tls = o.config.bool "grpc.tls" cfg;
    per_rpc =
        if oidc cfg
        then some (o.config.string "oidc.issuer" cfg, o.config.string "oidc.device-client-id" cfg)
        else none;
  }

  -- no connection was made: the server is not reached and nothing is printed
  abbrev pub Stays : Result (RunError E) (Unit {0}) × Desk F S → Type 0
  Stays result = (e : DialError) × (f : F) × (result ≡ (err (dial_error e), record d { files = f }))

  -- the command was run over the connection of the settings, which are valid; with OIDC enabled there
  -- are stored tokens
  abbrev pub Connects : Result (RunError E) (Unit {0}) × Desk F S → Type 0
  Connects result =
      (cfg : Settings) × (c : Conn E S) × (f : F) × (load_client_config o.config ≡ ok cfg)
      × (o.new_client (o.config.string "grpc.address" cfg) (options cfg) ≡ ok c)
      × ((oidc cfg ≡ false)
          ⊎ ((ts : TokenSet) × (load_tokens o.os o.tokens_path d.files ≡ (ok ts, f))))
      × (result ≡ on_server (run_e c cmd) (record d { files = f }))

  -- A command other than login and logout: either no connection is made, and then the server is not
  -- called and nothing is printed; or the settings are valid, the connection goes to their address,
  -- with TLS and credentials exactly as they say, the tokens could be loaded if they enable OIDC,
  -- and the command is run over that connection.
  pub execute-cases : dials cmd ≡ true → Stays (execute o cmd d) ⊎ Connects (execute o cmd d)
  unfolding execute dial new_token_credentials
  execute-cases h = elim (result-cases (load_client_config o.config)) [
    | inl (cfg, a) ↦
        let new = o.new_client (o.config.string "grpc.address" cfg) (options cfg) in
        elim (Bool-cases (oidc cfg)) [
          | inl b ↦ elim (outcome-cases (load_tokens o.os o.tokens_path d.files)) [
            | inl (ts, f, t) ↦ elim (result-cases new) [
              | inl (c, n) ↦
                  inr (cfg, c, f, a, n, inr (ts, t), rw (h, a) (rw (b, t) (rw (rw b at n) refl)))
              | inr (x, n) ↦ inl (could_not_connect, f, rw (h, a) (rw (b, t) (rw (rw b at n) refl)))
            ]
            | inr (e, f, t) ↦ inl (of_load e, f, rw (h, a) (rw (b, t) refl))
          ]
          | inr b ↦ elim (result-cases new) [
            | inl (c, n) ↦
                inr (cfg, c, d.files, a, n, inl b, rw (h, a) (rw b (rw (rw b at n) refl)))
            | inr (x, n) ↦ inl (could_not_connect, d.files, rw (h, a) (rw b (rw (rw b at n) refl)))
          ]
        ]
    | inr (x, a) ↦ inl (bad_config, d.files, rw (h, a) refl)
  ]
