-- ===== src/Server/Config/Required.antt =====
-- server/config/config.go: the settings that the validator asks for.
use tiny_file_watcher.Prelude.{
  ◌≡◌, refl, String, true, false, none, some, List, [], ◌∷◌, ◌++◌, ◌==◌, All, any, Bool-cases, inl,
  inr, ◌⊎◌, arith, eq_refl, if◌then◌else◌, string_comparable,
}
use tiny_file_watcher.Server.Config.{Settings, is_set, value, require, or_else, web_keys}

-- the settings that these settings ask for
abbrev pub needed : Settings → List String
needed settings =
    "grpc.address"
      ∷ (if value "debug-ui.enabled" settings == "true" then "debug-ui.address" ∷ [] else [])
    ++ (if value "web.enabled" settings == "true" then web_keys else [])

pub require-append :
    (ks ls : List String) (settings : Settings)
    → require (ks ++ ls) settings ≡ or_else (require ks settings) (require ls settings)
unfolding require
require-append [] ls settings = refl
require-append (k ∷ ks) ls settings = elim (Bool-cases (is_set k settings)) [
  | inl e ↦ rw e (require-append ks ls settings)
  | inr e ↦ rw e refl
]

-- either all keys are set, or the first that is not is named
pub require-first :
    (ks : List String) (settings : Settings)
    → ((require ks settings ≡ none) × All (λ k. is_set k settings ≡ true) ks)
      ⊎ ((k : String) × (require ks settings ≡ some k)
          × (any (λ x. x == k) ks ≡ true)
          × (is_set k settings ≡ false))
unfolding require
require-first [] settings = inl (refl, tt)
require-first (k ∷ ks) settings = elim (Bool-cases (is_set k settings)) [
  | inl e ↦ elim (require-first ks settings) [
    | inl (n, a) ↦ inl (rw e n, (e, a))
    | inr (x, n, m, u) ↦ inr (x, rw e n, ground arith, u)
  ]
  | inr e ↦ inr (k, rw e refl, ground (arith, eq_refl k), e)
]
