-- ===== src/Server/Web/Sessions.antt =====
-- server/web/auth.go: sessionStore, a map from session ids to times of expiry. The ids that
-- `create` draws are arguments, times are in nanoseconds.
pub mod Lifetime
use tiny_file_watcher.Prelude.{
  ℕ, ◌+◌, ◌*◌, String, Bool, false, not, Option, none, some, List, [], ◌∷◌, ◌==◌, ltb, keep,
  if◌then◌else◌,
}

abbrev pub SessionStore : Type 0
SessionStore = List (String × ℕ)

-- 12 hours
abbrev pub session_ttl : ℕ
session_ttl = 12 * 3600 * 1000000000

abbrev is_other : String → String × ℕ → Bool
is_other id (k, expiry) = not (k == id)

-- delete(s.sessions, id)
unfoldable pub delete : String → SessionStore → SessionStore
delete id s = keep (is_other id) s

unfoldable pub create : String → ℕ → SessionStore → SessionStore
unfolding delete
create id now s = (id, now + session_ttl) ∷ delete id s

unfoldable pub lookup : String → SessionStore → Option ℕ
lookup id [] = none
lookup id ((k, expiry) ∷ s) = let rest = lookup id s in if k == id then some expiry else rest

abbrev pub unexpired : ℕ → Option ℕ → Bool
unexpired now none = false
unexpired now (some expiry) = ltb now expiry

unfoldable pub valid : String → ℕ → SessionStore → Bool
unfolding lookup
valid id now s = unexpired now (lookup id s)

abbrev is_alive : ℕ → String × ℕ → Bool
is_alive now (k, expiry) = not (ltb expiry now)

-- one tick of reapLoop
unfoldable pub reap : ℕ → SessionStore → SessionStore
reap now s = keep (is_alive now) s
