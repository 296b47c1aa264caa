-- ===== src/Client/Cmd/Login/Stored.antt =====
-- client/cmd/login.go and client/auth: the token of a login is the one that later calls carry, until
-- the logout.
use Prim.Native.String.{◌++◌ as append}
use tiny_file_watcher.Internal.FilePath.{dir}
use tiny_file_watcher.Prelude.{
  Option-cases, ℕ, ◌+◌, ◌*◌, ◌≤◌, ◌≡◌, refl, ap, ◌∙◌, String, false, ◌==◌, some, inl, inr,
  Bool-cases, ltb, arith,
}
use tiny_file_watcher.Server.Outcome.{Result, ok, err, outcome-cases, result-cases}
use tiny_file_watcher.Client.Credentials.{TokenSet, Refreshed, not_logged_in, get_request_metadata}
use tiny_file_watcher.Client.Terminal.{Session}
use tiny_file_watcher.Client.Tokens.{
  Os, IsStore, tokens, OsError, not_exist, os_failure, load_tokens, save_tokens, clear_tokens,
  token_credentials,
}
use tiny_file_watcher.Client.Cmd.Login.{Provider, DeviceToken, login, logout, expiry_or}

-- what the token of the device flow is stored as
abbrev stored : DeviceToken → String → ℕ → TokenSet
stored t id now = record {
  id_token = id;
  refresh_token = t.refresh_token;
  expiry = expiry_or now t.expiry;
}

module _ {F : Type 0} (os : Os F) (path : String) where
  -- a login that succeeds has stored the token that the provider gave
  login-saves :
      (p : Provider) (t : DeviceToken) (now : ℕ) (s s' : Session F)
      → p.device_access_token ≡ ok t
      → login (ok p) os path now s ≡ (ok tt, s')
      → (id : String) × (t.id_token ≡ some id)
        × ((id == "") ≡ false)
        × (save_tokens os path (stored t id now) s.server ≡ (ok tt, s'.server))
  unfolding login
  login-saves p t now s s' g h = elim (result-cases p.discover) [
    | inl (u, a) ↦ elim (result-cases p.device_auth) [
      | inl (d, b) ↦ elim (Option-cases t.id_token) [
        | inl c ↦ cc (rw (a, b, g, c) at h)
        | inr (id, c) ↦ elim (Bool-cases (id == "")) [
          | inl n ↦ cc (rw (a, b, g, c, n) at h)
          | inr n ↦ elim (outcome-cases (save_tokens os path (stored t id now) s.server)) [
            | inl (v, f, e) ↦ (
              id,
              c,
              n,
              e ∙ ap (λ y. (ok tt, y)) (ap (λ x. x.1.server) (rw (a, b, g, c, n, e) at h)),
            )
            | inr (x, f, e) ↦ cc (rw (a, b, g, c, n, e) at h)
          ]
        ]
      ]
      | inr (x, b) ↦ cc (rw (a, b) at h)
    ]
    | inr (x, a) ↦ cc (rw a at h)
  ]

  module _ (store : IsStore os path) where
    save_tokens-Holds :
        (ts : TokenSet) (f f' : F)
        → save_tokens os path ts f ≡ (ok tt, f')
        → os.read_file path f' ≡ (ok (tokens ts), f')
    unfolding save_tokens
    save_tokens-Holds ts f f' h = elim (outcome-cases (os.mkdir_all (dir path) 448 f)) [
      | inl (t, g, e) ↦ store.written (tokens ts) 384 g f' (rw e at h)
      | inr (x, g, e) ↦ cc (rw e at h)
    ]

    cleared-absent :
        (x : OsError) (f f' g : F)
        → os.remove path f ≡ (err x, g)
        → clear_tokens os path f ≡ (ok tt, f')
        → os.read_file path f' ≡ (err not_exist, f')
    unfolding clear_tokens
    cleared-absent not_exist f f' g e h =
        store.absent f f' (e ∙ ap (λ y. (err not_exist, y)) (ap (λ z. z.1) (rw e at h)))
    cleared-absent os_failure f f' g e h = cc (rw e at h)

    clear_tokens-absent :
        (f f' : F)
        → clear_tokens os path f ≡ (ok tt, f')
        → os.read_file path f' ≡ (err not_exist, f')
    unfolding clear_tokens
    clear_tokens-absent f f' h = elim (outcome-cases (os.remove path f)) [
      | inl (t, g, e) ↦ store.removed f f' (e ∙ ap (λ y. (ok tt, y)) (ap (λ z. z.1) (rw e at h)))
      | inr (x, g, e) ↦ cleared-absent x f f' g e h
    ]

    logout-absent :
        (s s' : Session F)
        → logout os path s ≡ (ok tt, s')
        → os.read_file path s'.server ≡ (err not_exist, s'.server)
    unfolding logout
    logout-absent s s' h = elim (outcome-cases (clear_tokens os path s.server)) [
      | inl (t, g, e) ↦
          clear_tokens-absent s.server s'.server
            (e ∙ ap (λ y. (ok tt, y)) (ap (λ z. z.1.server) (rw e at h)))
      | inr (x, g, e) ↦ cc (rw e at h)
    ]

    -- Where the file of the tokens gives back what was written to it and is gone once removed: after a
    -- login that succeeds, every call until 10 seconds before the token's expiry (5 minutes after the
    -- login if the provider gives none) carries "Bearer " and exactly the id_token that the provider
    -- gave, which is not empty; and after a logout that succeeds a call at any time is refused because
    -- the user is not logged in. Neither kind of call changes the files.
    pub login-get_request_metadata :
        (p : Provider) (t : DeviceToken) (refresh : String → Result (Unit {0}) Refreshed)
        (now later after : ℕ) (s s' s'' : Session F)
        → p.device_access_token ≡ ok t
        → login (ok p) os path now s ≡ (ok tt, s')
        → later + 10 * 1000000000 ≤ expiry_or now t.expiry
        → logout os path s' ≡ (ok tt, s'')
        → (id : String) × (t.id_token ≡ some id)
          × ((id == "") ≡ false)
          × (get_request_metadata (token_credentials os path refresh) later s'.server
              ≡ (ok (append "Bearer " id), s'.server))
          × (get_request_metadata (token_credentials os path refresh) after s''.server
              ≡ (err not_logged_in, s''.server))
    unfolding get_request_metadata load_tokens
    login-get_request_metadata p t refresh now later after s s' s'' g l soon o =
        let (id, c, n, saved) = login-saves p t now s s' g l in
        let early : ltb (expiry_or now t.expiry) (later + 10 * 1000000000) ≡ false = ground arith in
        (
          id,
          c,
          n,
          rw (save_tokens-Holds (stored t id now) s.server s'.server saved) (rw (early, n) refl),
          rw (logout-absent s' s'' o) refl,
        )
