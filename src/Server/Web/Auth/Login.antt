-- ===== src/Server/Web/Auth/Login.antt =====
-- server/web/auth.go: who gets a session, and what one is good for.
use Prim.Native.String.{◌++◌ as append}
use tiny_file_watcher.Prelude.{
  ltb, ◌+◌, eq_refl, ℕ, ◌≡◌, refl, ap, String, Bool, true, false, not, Option, none, some, ◌==◌,
  ◌⊎◌, inl, inr, Bool-cases, eq_iff, arith, if◌then◌else◌,
}
use tiny_file_watcher.Server.Outcome.{Result, ok, err}
use tiny_file_watcher.Server.Web.Sessions
use tiny_file_watcher.Server.Web.Sessions.{SessionStore, create, session_ttl, lookup}
use tiny_file_watcher.Server.Web.Http.{Request, Response, redirect, error, plain}
use tiny_file_watcher.Server.Web.Auth.{
  Handler, require_auth, is_authenticated, handle_callback, same_state, verified, exchanged,
  failing, create_session, session_cookie_name, state_cookie_name,
}

-- the request comes back from a login that this server started and the provider vouches for
abbrev pub Vouched : Handler → Request → Type 0
Vouched h r =
    (r.cookie state_cookie_name ≡ some (r.query "state"))
    × ((r.query "code" == "") ≡ false)
    × (id_token : String) × (h.auth.exchange (r.query "code") ≡ ok (some id_token))
    × (h.auth.verify id_token ≡ ok tt)

exchange-cases :
    (x : Result (Unit {0}) (Option String))
    → ((id_token : String) × (x ≡ ok (some id_token)))
      ⊎ ((h : Handler) (r : Request) → exchanged h r x ≡ failing h 500)
exchange-cases (ok (some t)) = inl (t, refl)
exchange-cases (ok none) = inr (λ h r. refl)
exchange-cases (err e) = inr (λ h r. refl)

verify-cases :
    (x : Result (Unit {0}) (Unit {0}))
    → (x ≡ ok tt) ⊎ ((h : Handler) (r : Request) → verified h r x ≡ failing h 401)
verify-cases (ok t) = inl refl
verify-cases (err e) = inr (λ h r. refl)

state_cookie : (c : Option String) (state : String) → same_state c state ≡ true → c ≡ some state
state_cookie none state h = absurd (ground arith)
state_cookie (some v) state h = ap some ((eq_iff v state).0 h)

-- The callback of a login either ends in an error and leaves the handler and its sessions as they
-- were, or the request has the state cookie that the query repeats, a code that the provider
-- exchanges for an id_token, and that token verifies. Then, and with OIDC enabled, exactly one
-- session is created, under the token that was drawn, and the browser is sent to the start page.
pub handle_callback-Vouched :
    (h : Handler) (r : Request)
    → (Vouched h r
        × ((handle_callback h r).0.reply ≡ redirect (append h.base_path "/"))
        × ((handle_callback h r).1 ≡ record h { sessions = create_session r h.sessions }))
      ⊎ ((code : ℕ) × ((handle_callback h r).0.reply ≡ error code) × ((handle_callback h r).1 ≡ h))
unfolding handle_callback
handle_callback-Vouched h r =
    elim (Bool-cases (same_state (r.cookie state_cookie_name) (r.query "state"))) [
      | inl s ↦ elim (Bool-cases (r.query "code" == "")) [
        | inl c ↦ inr (400, rw (s, c) refl, rw (s, c) refl)
        | inr c ↦ elim (exchange-cases (h.auth.exchange (r.query "code"))) [
          | inl (t, x) ↦ elim (verify-cases (h.auth.verify t)) [
            | inl v ↦ inl (
              (state_cookie _ _ s, c, t, x, v),
              rw (s, c) (rw x (rw v refl)),
              rw (s, c) (rw x (rw v refl)),
            )
            | inr v ↦ inr (
              401,
              rw (s, c) (rw x (ap (λ p. p.0.reply) (v h r))),
              rw (s, c) (rw x (ap (λ p. p.1) (v h r))),
            )
          ]
          | inr x ↦
              inr (500, rw (s, c) (ap (λ p. p.0.reply) (x h r)), rw (s, c) (ap (λ p. p.1) (x h r)))
        ]
      ]
      | inr s ↦ inr (400, rw s refl, rw s refl)
    ]

valid-create :
    (id : String) (now t : ℕ) (s : SessionStore)
    → Sessions.valid id t (create id now s) ≡ ltb t (now + session_ttl)
unfolding Sessions.valid lookup create
valid-create id now t s = ground (arith, eq_refl id)

if-not : {A : Type 0} (b : Bool) (x y : A) → (if not b then x else y) ≡ (if b then y else x)
if-not true x y = refl
if-not false x y = refl

-- A login that the provider vouches for opens the application: a later request with the session's
-- cookie passes requireAuth, and is served by the handler behind it, exactly until 12 hours have
-- passed; after that it is sent to the login.
pub handle_callback-require_auth :
    {S : Type 0} (h : Handler) (r later : Request) (s : SessionStore)
    (next : Request → S → Response × S) (t : S)
    → h.sessions ≡ some s
    → Vouched h r
    → later.cookie session_cookie_name ≡ some r.random_token
    → let opened = (handle_callback h r).1 in
      require_auth next opened later t ≡ (
        if ltb later.now (r.now + session_ttl)
        then next later t
        else (plain (redirect (append opened.base_path "/auth/login")), t))
unfolding handle_callback require_auth is_authenticated
handle_callback-require_auth h r later s next u hs (state, c, t, x, v) l =
    rw (state, c)
      (rw (eq_refl (r.query "state")) (
        rw x (
          rw v (
            rw (hs, l)
              (rw (valid-create r.random_token r.now later.now s)
                (if-not (ltb later.now (r.now + session_ttl)) _ _))))))
