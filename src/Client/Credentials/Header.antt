-- ===== src/Client/Credentials/Header.antt =====
-- client/auth/grpc_creds.go and server/interceptor/grpc_auth.go: the header from the client
-- to the server.
use Prim.Native.String.{◌++◌ as append}
use mathlib.Core.Path.{subst}
use tiny_file_watcher.Prelude.{
  ℕ, ◌≡◌, refl, String, false, Option, none, some, [], ◌∷◌, ◌==◌, ◌⊎◌, inl, inr, Bool-cases,
  strip_prefix-append,
}
use tiny_file_watcher.Server.Outcome.{Result, ok, err, outcome-cases}
use tiny_file_watcher.Server.Interceptor.{extract_bearer_token}
use tiny_file_watcher.Client.Credentials.{
  TokenSet, TokenCredentials, CredentialsError, refresh_failed, get_request_metadata,
  refresh_id_token, choose, expiring, Refreshed, fresh, refreshed,
}

-- a header with a token that is not empty
abbrev pub Carrying : {F : Type 0} → Result CredentialsError String × F → Type 0
Carrying (err e, f) = Unit
Carrying (ok h, f) =
    (token : String) × ((token == "") ≡ false)
    × (h ≡ append "Bearer " token)
    × (extract_bearer_token (some (h ∷ [])) ≡ ok token)

extract-header :
    (token : String) → extract_bearer_token (some (append "Bearer " token ∷ [])) ≡ ok token
unfolding extract_bearer_token
extract-header token = rw (strip_prefix-append "Bearer " token) refl

fresh-not_empty :
    (x : Result (Unit {0}) Refreshed)
    → ((e : CredentialsError) × (refreshed x ≡ err e))
      ⊎ ((t : String) × (ts : TokenSet) × (refreshed x ≡ ok (t, ts)) × ((t == "") ≡ false))
fresh-not_empty (err e) = inl (_, refl)
fresh-not_empty (ok r) = go r.id_token
  where
    go :
        (o : Option String)
        → ((e : CredentialsError) × (fresh o r ≡ err e))
          ⊎ ((t : String) × (ts : TokenSet) × (fresh o r ≡ ok (t, ts)) × ((t == "") ≡ false))
    go none = inl (_, refl)
    go (some raw) = elim (Bool-cases (raw == "")) [
      | inl e ↦ inl (refresh_failed, rw e refl)
      | inr e ↦ inr (
        raw,
        record { id_token = raw; refresh_token = r.refresh_token; expiry = r.expiry },
        rw e refl,
        e,
      )
    ]

choose-Carrying :
    {F : Type 0} (c : TokenCredentials F) (now : ℕ) (ts : TokenSet) (f : F)
    → Carrying (choose c now ts f)
unfolding refresh_id_token
choose-Carrying c now ts f = elim (Bool-cases (expiring c now ts)) [
  | inl e ↦ elim (fresh-not_empty (c.token ts.refresh_token)) [
    | inl b ↦ rw e (rw b.1 tt)
    | inr b ↦ rw e (rw b.2 (b.0, b.3, refl, extract-header b.0))
  ]
  | inr e ↦ elim (Bool-cases (ts.id_token == "")) [
    | inl b ↦ rw (e, b) tt
    | inr b ↦ rw (e, b) (ts.id_token, b, refl, extract-header ts.id_token)
  ]
]

metadata-Carrying :
    {F : Type 0} (c : TokenCredentials F) (now : ℕ) (f : F)
    → Carrying (get_request_metadata c now f)
unfolding get_request_metadata
metadata-Carrying c now f = elim (outcome-cases (c.load f)) [
  | inl a ↦ rw a.2 (choose-Carrying c now a.0 a.1)
  | inr a ↦ rw a.2 tt
]

-- Whatever tokens are stored and however the provider answers a refresh: if the client sends a
-- header at all, the server's interceptor reads a token from it, and that token is not empty.
pub get_request_metadata-extract :
    {F : Type 0} (c : TokenCredentials F) (now : ℕ) (f g : F) (h : String)
    → get_request_metadata c now f ≡ (ok h, g)
    → (token : String) × ((token == "") ≡ false)
      × (h ≡ append "Bearer " token)
      × (extract_bearer_token (some (h ∷ [])) ≡ ok token)
get_request_metadata-extract c now f g h e = subst Carrying e (metadata-Carrying c now f)
