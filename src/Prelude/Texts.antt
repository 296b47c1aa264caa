-- ===== src/Prelude/Texts.antt =====
-- Go's strings.HasPrefix and strings.TrimPrefix as one function.
use Prim.Native.Char.{code}
use Prim.Native.String.{String, ◌++◌ as append}
use mathlib.Core.Path.{◌≡◌, refl, sym, ap, ap₂, ◌∙◌}
use mathlib.Core.Logic.{inl, inr}
use mathlib.Core.Option.{Option, none, some}
use mathlib.Core.Option.{some-injective}
use native.Mathlib.Omega.{arith}
use text.Mathlib.TextEquality.{Char-path}
use text.Mathlib.TextLemmas.{nil-append, cons-append}
use tiny_file_watcher.Prelude.Tests.{if◌then◌else◌, nat_eq, nat_eq_iff, Bool-cases}

-- what follows the prefix
unfoldable pub strip_prefix : String → String → Option String
strip_prefix String.[] s = some s
strip_prefix (String.◌∷◌ c p) String.[] = none
strip_prefix (String.◌∷◌ c p) (String.◌∷◌ d s) =
    let rest = strip_prefix p s in if nat_eq (code c) (code d) then rest else none

pub strip_prefix-append : (p t : String) → strip_prefix p (append p t) ≡ some t
unfolding strip_prefix
strip_prefix-append String.[] t = ap some (nil-append t)
strip_prefix-append (String.◌∷◌ c p) t =
    rw (cons-append c p t, (nat_eq_iff (code c) (code c)).1 refl) (strip_prefix-append p t)

pub strip_prefix_sound : (p s t : String) → strip_prefix p s ≡ some t → s ≡ append p t
unfolding strip_prefix
strip_prefix_sound String.[] s t h = some-injective _ _ h ∙ sym (nil-append t)
strip_prefix_sound (String.◌∷◌ c p) String.[] t h = cc
strip_prefix_sound (String.◌∷◌ c p) (String.◌∷◌ d s) t h =
    elim (Bool-cases (nat_eq (code c) (code d))) [
      | inl e ↦
          ap₂ String.◌∷◌ (sym (Char-path c d ((nat_eq_iff (code c) (code d)).0 e)))
            (strip_prefix_sound p s t (rw e at h))
          ∙ sym (cons-append c p t)
      | inr e ↦ absurd (ground (arith, (rw e at h)))
    ]
