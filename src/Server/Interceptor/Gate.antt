-- ===== src/Server/Interceptor/Gate.antt =====
-- server/interceptor/grpc_auth.go: which calls reach their handler.
use Prim.Native.String.{◌++◌ as append}
use tiny_file_watcher.Prelude.{
  ◌≡◌, refl, sym, ap, ◌∙◌, String, none, some, List, [], ◌∷◌, ◌⊎◌, inl, inr, Option-cases,
  strip_prefix, strip_prefix-append, strip_prefix_sound,
}
use tiny_file_watcher.Server.Outcome.{Result, ok, err, Exec, Code, unauthenticated}
use tiny_file_watcher.Server.Interceptor.{
  TokenVerifier, Metadata, extract_bearer_token, unary_auth, stream_auth, or_unauthenticated,
}

-- the call carries a token that the verifier accepts
abbrev pub Carries : TokenVerifier → Metadata → Type 0
Carries v md =
    (token : String) × (vals : List String) × (md ≡ some (append "Bearer " token ∷ vals))
    × (v token ≡ ok tt)

verified : (v : TokenVerifier) (t : String) → (v t ≡ ok tt) ⊎ (v t ≡ err tt)
verified v t = cases (v t)
  where
    cases : (r : Result (Unit {0}) (Unit {0})) → (r ≡ ok tt) ⊎ (r ≡ err tt)
    cases (ok a) = inl refl
    cases (err e) = inr refl

-- the two checks without the handler
abbrev admit : TokenVerifier → Result Code String → Result Code (Unit {0})
admit v (err c) = err c
admit v (ok token) = or_unauthenticated (v token)

carried :
    (v : TokenVerifier) (md : Metadata) → Carries v md → admit v (extract_bearer_token md) ≡ ok tt
unfolding extract_bearer_token
carried v md (token, vals, e, accepted) =
    rw e (rw (strip_prefix-append "Bearer " token) (rw accepted refl))

gate :
    (v : TokenVerifier) (md : Metadata)
    → Carries v md ⊎ (admit v (extract_bearer_token md) ≡ err unauthenticated)
unfolding extract_bearer_token
gate v none = inr refl
gate v (some []) = inr refl
gate v (some (auth ∷ vals)) = elim (Option-cases (strip_prefix "Bearer " auth)) [
  | inl e ↦ inr (rw e refl)
  | inr e ↦ elim (verified v e.0) [
    | inl a ↦
        inl (e.0, vals, ap (λ z. some (z ∷ vals)) (strip_prefix_sound "Bearer " auth e.0 e.1), a)
    | inr r ↦ inr (rw e.1 (rw r refl))
  ]
]

abbrev after : {S A : Type 0} → Result Code (Unit {0}) → Exec Code S A → Exec Code S A
after (ok t) handler s = handler s
after (err c) handler s = (err c, s)

extraction : (r : Result Code String) → ((t : String) × (r ≡ ok t)) ⊎ ((c : Code) × (r ≡ err c))
extraction (ok t) = inl (t, refl)
extraction (err c) = inr (c, refl)

ok≢err : ¬ (Path (Result Code (Unit {0})) (ok tt) (err unauthenticated))
ok≢err e = cc

module _ {S A : Type 0} (v : TokenVerifier) (s : S) where
  unary_auth-admit :
      (md : Metadata) (handler : Exec Code S A)
      → unary_auth v md handler s ≡ after (admit v (extract_bearer_token md)) handler s
  unfolding unary_auth
  unary_auth-admit md handler = elim (extraction (extract_bearer_token md)) [
    | inl e ↦ elim (verified v e.0) [ inl a ↦ rw e.1 (rw a refl) | inr r ↦ rw e.1 (rw r refl) ]
    | inr e ↦ rw e.1 refl
  ]

  -- A unary call whose metadata has, as the first value of "authorization", the text "Bearer " and
  -- a token that the verifier accepts is answered by its handler, on the state that it was made on.
  -- Any other call is answered Unauthenticated, and the handler changes nothing.
  pub unary_auth-gate :
      (md : Metadata) (handler : Exec Code S A)
      → (Carries v md × (unary_auth v md handler s ≡ handler s))
        ⊎ ((¬ Carries v md) × (unary_auth v md handler s ≡ (err unauthenticated, s)))
  unary_auth-gate md handler = elim (gate v md) [
    | inl c ↦ inl (c, unary_auth-admit md handler ∙ ap (λ r. after r handler s) (carried v md c))
    | inr r ↦ inr (
      (λ c. ok≢err (sym (carried v md c) ∙ r)),
      unary_auth-admit md handler ∙ ap (λ x. after x handler s) r,
    )
  ]

-- the stream interceptor decides as the unary one does
pub stream_auth_lem :
    {S : Type 0} (v : TokenVerifier) (md : Metadata) (handler : Exec Code S (Unit {0})) (s : S)
    → stream_auth v md handler s ≡ unary_auth v md handler s
unfolding stream_auth unary_auth
stream_auth_lem v md handler s = refl
