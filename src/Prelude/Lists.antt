-- ===== src/Prelude/Lists.antt =====
-- Lists under Boolean tests: `any`, `keep`, the predicate `All`, and a length in native numbers.
use Prim.Native.Nat.{ℕ, suc, ◌+◌, ◌≤◌}
use mathlib.Core.Path.{◌≡◌, refl, ap, ap₂}
use mathlib.Core.Logic.{inl, inr}
use mathlib.Core.Bool.{Bool, true, false, not, ◌&&◌, ◌||◌}
use mathlib.Core.Option.{Option, none, some}
use mathlib.Core.List.{List, [], ◌∷◌, ◌++◌, map}
use native.Mathlib.Omega.{arith}
use tiny_file_watcher.Prelude.Tests.{if◌then◌else◌, Bool-cases}

module _ {ℓ} {A : Type ℓ} where
  abbrev pub length : List A → ℕ
  length [] = 0
  length (x ∷ xs) = suc (length xs)

  abbrev pub any : (A → Bool) → List A → Bool
  any p [] = false
  any p (x ∷ xs) = p x || any p xs

  -- the elements that pass the test, in their order
  abbrev pub keep : (A → Bool) → List A → List A
  keep p [] = []
  keep p (x ∷ xs) = if p x then x ∷ keep p xs else keep p xs

  -- the first element that passes the test
  abbrev pub first : (A → Bool) → List A → Option A
  first p [] = none
  first p (x ∷ xs) = if p x then some x else first p xs

  abbrev pub All {κ} : (A → Type κ) → List A → Type κ
  All P [] = Unit
  All P (x ∷ xs) = P x × All P xs

  pub length-append : (xs ys : List A) → length (xs ++ ys) ≡ length xs + length ys
  length-append [] ys = omega arith
  length-append (x ∷ xs) ys = omega (arith, length-append xs ys)

  pub any-append : (p : A → Bool) (xs ys : List A) → any p (xs ++ ys) ≡ any p xs || any p ys
  any-append p [] ys = refl
  any-append p (x ∷ xs) ys = ground (arith, any-append p xs ys)

  -- a test that implies another holds of no fewer lists
  pub any_mono :
      (p q : A → Bool) (xs : List A)
      → ((a : A) → p a ≡ true → q a ≡ true)
      → any p xs ≡ true
      → any q xs ≡ true
  any_mono p q [] h e = e
  any_mono p q (x ∷ xs) h e = ground (arith, h x, any_mono p q xs h)

  pub any_ext : (p q : A → Bool) (xs : List A) → ((a : A) → p a ≡ q a) → any p xs ≡ any q xs
  any_ext p q [] h = refl
  any_ext p q (x ∷ xs) h = ground (arith, h x, any_ext p q xs h)

  pub any-keep : (p q : A → Bool) (xs : List A) → any p (keep q xs) ≡ any (λ a. q a && p a) xs
  any-keep p q [] = refl
  any-keep p q (x ∷ xs) = ground (arith, any-keep p q xs)

  -- what holds of the list and fails on what a test drops holds of what it keeps
  pub any-keep_of :
      (p q : A → Bool) (xs : List A)
      → any p xs ≡ true
      → any (λ a. p a && not (q a)) xs ≡ false
      → any p (keep q xs) ≡ true
  any-keep_of p q [] e f = e
  any-keep_of p q (x ∷ xs) e f = ground (arith, any-keep_of p q xs)

  pub keep_all : (p : A → Bool) (xs : List A) → All (λ a. p a ≡ true) xs → keep p xs ≡ xs
  keep_all p [] h = refl
  keep_all p (x ∷ xs) h = ground (arith, keep_all p xs h.1)

  pub length-keep-le : (p : A → Bool) (xs : List A) → length (keep p xs) ≤ length xs
  length-keep-le p [] = omega arith
  length-keep-le p (x ∷ xs) = ground (arith, length-keep-le p xs)

  pub All-append {κ} : (P : A → Type κ) (xs ys : List A) → All P xs → All P ys → All P (xs ++ ys)
  All-append P [] ys hx hy = hy
  All-append P (x ∷ xs) ys hx hy = (hx.0, All-append P xs ys hx.1 hy)

  pub All_mono {κ} : (P Q : A → Type κ) (xs : List A) → ((a : A) → P a → Q a) → All P xs → All Q xs
  All_mono P Q [] f h = tt
  All_mono P Q (x ∷ xs) f h = (f x h.0, All_mono P Q xs f h.1)

  pub All_of {κ} : (P : A → Type κ) (xs : List A) → ((a : A) → P a) → All P xs
  All_of P [] f = tt
  All_of P (x ∷ xs) f = (f x, All_of P xs f)

  -- what holds of the kept elements may use that they passed the test
  pub All-keep {κ} :
      (P Q : A → Type κ) (p : A → Bool) (xs : List A)
      → ((a : A) → p a ≡ true → P a → Q a)
      → All P xs
      → All Q (keep p xs)
  All-keep P Q p [] f h = tt
  All-keep P Q p (x ∷ xs) f h = elim (Bool-cases (p x)) [
    | inl e ↦ rw e (f x e h.0, All-keep P Q p xs f h.1)
    | inr e ↦ rw e (All-keep P Q p xs f h.1)
  ]

  pub any_ext_on {κ} :
      (P : A → Type κ) (p q : A → Bool) (xs : List A)
      → ((a : A) → P a → p a ≡ q a)
      → All P xs
      → any p xs ≡ any q xs
  any_ext_on P p q [] f h = refl
  any_ext_on P p q (x ∷ xs) f h = ground (arith, f x h.0, any_ext_on P p q xs f h.1)

  pub keep_ext_on {κ} :
      (P : A → Type κ) (p q : A → Bool) (xs : List A)
      → ((a : A) → P a → p a ≡ q a)
      → All P xs
      → keep p xs ≡ keep q xs
  keep_ext_on P p q [] f h = refl
  keep_ext_on P p q (x ∷ xs) f h = ground (arith, f x h.0, keep_ext_on P p q xs f h.1)

  pub keep-append : (p : A → Bool) (xs ys : List A) → keep p (xs ++ ys) ≡ keep p xs ++ keep p ys
  keep-append p [] ys = refl
  keep-append p (x ∷ xs) ys = ground (arith, keep-append p xs ys)

  pub keep-keep : (p q : A → Bool) (xs : List A) → keep p (keep q xs) ≡ keep (λ a. q a && p a) xs
  keep-keep p q [] = refl
  keep-keep p q (x ∷ xs) = ground (arith, keep-keep p q xs)

  pub any-guard : (b : Bool) (p : A → Bool) (xs : List A) → any (λ a. b && p a) xs ≡ b && any p xs
  any-guard true p xs = refl
  any-guard false p [] = refl
  any-guard false p (x ∷ xs) = any-guard false p xs

  pub first-any :
      (p : A → Bool) (xs : List A)
      → any p xs ≡ true
      → (a : A) × (first p xs ≡ some a) × (p a ≡ true)
  first-any p [] e = absurd (ground arith)
  first-any p (x ∷ xs) e = elim (Bool-cases (p x)) [
    | inl h ↦ (x, rw h, h)
    | inr h ↦ rw h (first-any p xs (rw h at e))
  ]

  pub first-none : (p : A → Bool) (xs : List A) → any p xs ≡ false → first p xs ≡ none
  first-none p [] e = refl
  first-none p (x ∷ xs) e = ground (arith, first-none p xs)

module _ {ℓ κ} {A : Type ℓ} {B : Type κ} where
  pub All-map {ι} :
      (P : B → Type ι) (f : A → B) (xs : List A) → All (λ a. P (f a)) xs → All P (map f xs)
  All-map P f [] h = tt
  All-map P f (x ∷ xs) h = (h.0, All-map P f xs h.1)

  pub any-map : (p : B → Bool) (f : A → B) (xs : List A) → any p (map f xs) ≡ any (λ a. p (f a)) xs
  any-map p f [] = refl
  any-map p f (x ∷ xs) = ground (arith, any-map p f xs)

  pub length-map : (f : A → B) (xs : List A) → length (map f xs) ≡ length xs
  length-map f [] = refl
  length-map f (x ∷ xs) = omega (arith, length-map f xs)

  pub map_ext_on {ι} :
      (P : A → Type ι) (f g : A → B) (xs : List A)
      → ((a : A) → P a → f a ≡ g a)
      → All P xs
      → map f xs ≡ map g xs
  map_ext_on P f g [] h p = refl
  map_ext_on P f g (x ∷ xs) h p = ap₂ ◌∷◌ (h x p.0) (map_ext_on P f g xs h p.1)

pub map_id {ℓ} : {A : Type ℓ} (xs : List A) → map (λ (a : A). a) xs ≡ xs
map_id [] = refl
map_id (x ∷ xs) = ap (◌∷◌ x) (map_id xs)

pub map-map {ℓ κ ι} :
    {A : Type ℓ} {B : Type κ} {C : Type ι} (g : B → C) (f : A → B) (xs : List A)
    → map g (map f xs) ≡ map (λ a. g (f a)) xs
map-map g f [] = refl
map-map g f (x ∷ xs) = ap (◌∷◌ (g (f x))) (map-map g f xs)
