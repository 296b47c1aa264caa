-- ===== src/Server/Interceptor.antt =====
-- server/interceptor: the Bearer token of a call and the interceptors that verify it.
pub mod Gate
use tiny_file_watcher.Prelude.{String, Bool, true, Option, none, some, List, [], ◌∷◌, strip_prefix}
use tiny_file_watcher.Server.Outcome.{
  Result, ok, err, Exec, Code, unauthenticated, lift, refuse, ◌>>=◌, ◌>>◌,
}

-- TokenVerifier: whether a token is accepted
abbrev pub TokenVerifier : Type 0
TokenVerifier = String → Result (Unit {0}) (Unit {0})

abbrev pub noop_verifier : TokenVerifier
noop_verifier raw_token = ok tt

-- OIDCTokenVerifier over the verifier of go-oidc
abbrev pub oidc_token_verifier : {T : Type 0} → (String → Result (Unit {0}) T) → TokenVerifier
oidc_token_verifier v raw_token = elim (v raw_token) [ ok t ↦ ok tt | err e ↦ err e ]

-- the metadata of a call, if it has any: the values of the key "authorization"
abbrev pub Metadata : Type 0
Metadata = Option (List String)

abbrev bearer : Option String → Result Code String
bearer none = err unauthenticated
bearer (some token) = ok token

unfoldable pub extract_bearer_token : Metadata → Result Code String
extract_bearer_token none = err unauthenticated
extract_bearer_token (some []) = err unauthenticated
extract_bearer_token (some (auth ∷ vals)) = bearer (strip_prefix "Bearer " auth)

abbrev or_unauthenticated : Result (Unit {0}) (Unit {0}) → Result Code (Unit {0})
or_unauthenticated (ok t) = ok t
or_unauthenticated (err e) = err unauthenticated

module _ {S A : Type 0} where
  unfoldable pub unary_auth : TokenVerifier → Metadata → Exec Code S A → Exec Code S A
  unfolding extract_bearer_token
  unary_auth v md handler = do
    token ← lift (extract_bearer_token md)
    lift (or_unauthenticated (v token))
    handler

module _ {S : Type 0} where
  unfoldable pub stream_auth :
      TokenVerifier → Metadata → Exec Code S (Unit {0}) → Exec Code S (Unit {0})
  unfolding extract_bearer_token
  stream_auth v md handler = do
    token ← lift (extract_bearer_token md)
    lift (or_unauthenticated (v token))
    handler
