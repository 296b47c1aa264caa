-- ===== src/Prelude/Keys.antt =====
-- Go's constraint `comparable`, and lists of distinct keys.
use mathlib.Core.Path.{◌≡◌, refl, sym, ap, ap₂, ◌∙◌}
use mathlib.Core.Logic.{◌↔◌, inl, inr}
use mathlib.Core.Bool.{Bool, true, false, ◌||◌}
use mathlib.Core.List.{List, [], ◌∷◌, ◌++◌, map}
use Prim.Native.Nat.{ℕ}
use Prim.Native.String.{String}
use native.Mathlib.Omega.{arith}
use text.Mathlib.Text.{◌==◌}
use text.Mathlib.TextEquality.{eq_iff}
use tiny_file_watcher.Prelude.Tests.{Bool-cases, nat_eq, nat_eq_iff}
use tiny_file_watcher.Prelude.Lists.{any, keep, All, any-map}

pub record Comparable {ℓ} (A : Type ℓ) : Type ℓ where
  pub beq : A → A → Bool
  pub beq_iff : (a b : A) → (beq a b ≡ true) ↔ (a ≡ b)

instance abbrev pub string_comparable : Comparable String
string_comparable = record { beq = ◌==◌; beq_iff = eq_iff }

instance abbrev pub nat_comparable : Comparable ℕ
nat_comparable = record { beq = nat_eq; beq_iff = nat_eq_iff }

module _ {ℓ} {A : Type ℓ} where
  pub any-false-keep : (p q : A → Bool) (xs : List A) → any p xs ≡ false → any p (keep q xs) ≡ false
  any-false-keep p q [] h = h
  any-false-keep p q (x ∷ xs) h = ground (arith, any-false-keep p q xs)

  -- a test passed by an element that another test keeps
  pub any-keep-true :
      (p q : A → Bool) (xs : List A)
      → ((a : A) → p a ≡ true → q a ≡ true)
      → any p xs ≡ true
      → any p (keep q xs) ≡ true
  any-keep-true p q [] h e = e
  any-keep-true p q (x ∷ xs) h e = ground (arith, h x, any-keep-true p q xs h)

  -- what no element passes fails of each
  pub All-any-false : (p : A → Bool) (xs : List A) → any p xs ≡ false → All (λ a. p a ≡ false) xs
  All-any-false p [] h = tt
  All-any-false p (x ∷ xs) h = (ground arith, All-any-false p xs (ground arith))

  pub any-false_of_All : (p : A → Bool) (xs : List A) → All (λ a. p a ≡ false) xs → any p xs ≡ false
  any-false_of_All p [] h = refl
  any-false_of_All p (x ∷ xs) h = ground (arith, any-false_of_All p xs h.1)

  pub All_zip {κ ι ο} :
      (P : A → Type κ) (Q : A → Type ι) (R : A → Type ο) (xs : List A)
      → ((a : A) → P a → Q a → R a)
      → All P xs
      → All Q xs
      → All R xs
  All_zip P Q R [] f p q = tt
  All_zip P Q R (x ∷ xs) f p q = (f x p.0 q.0, All_zip P Q R xs f p.1 q.1)

module _ {ℓ} {A : Type ℓ} ⦃e : Comparable A⦄ where
  abbrev pub Distinct : List A → Type 0
  Distinct [] = Unit
  Distinct (x ∷ xs) = (any (λ key. e.beq key x) xs ≡ false) × Distinct xs

  pub keep-Distinct : (q : A → Bool) (xs : List A) → Distinct xs → Distinct (keep q xs)
  keep-Distinct q [] d = tt
  keep-Distinct q (x ∷ xs) d = elim (Bool-cases (q x)) [
    | inl h ↦ rw h (any-false-keep _ q xs d.0, keep-Distinct q xs d.1)
    | inr h ↦ rw h (keep-Distinct q xs d.1)
  ]

  beq_comm : (x y : A) → e.beq x y ≡ e.beq y x
  beq_comm x y = ground (arith, e.beq_iff x y, e.beq_iff y x)

  any-snoc : (p : A → Bool) (xs : List A) (x : A) → any p (xs ++ x ∷ []) ≡ any p xs || p x
  any-snoc p [] x = ground arith
  any-snoc p (y ∷ xs) x = ground (arith, any-snoc p xs x)

  -- a new key may be put at the end
  pub snoc-Distinct :
      (xs : List A) (x : A)
      → Distinct xs
      → any (λ key. e.beq key x) xs ≡ false
      → Distinct (xs ++ x ∷ [])
  snoc-Distinct [] x d h = (refl, tt)
  snoc-Distinct (y ∷ xs) x d h = (
    ground (arith, any-snoc (λ key. e.beq key y) xs x, beq_comm x y),
    snoc-Distinct xs x d.1 (ground arith),
  )

module _ {ℓ κ} {R : Type ℓ} {A : Type κ} ⦃e : Comparable A⦄ (key : R → A) where
  -- dropping rows keeps their keys distinct
  pub keep_rows-Distinct :
      (q : R → Bool) (rs : List R) → Distinct (map key rs) → Distinct (map key (keep q rs))
  keep_rows-Distinct q [] d = tt
  keep_rows-Distinct q (r ∷ rs) d = elim (Bool-cases (q r)) [
    | inl h ↦ rw h (
      any-map _ key (keep q rs) ∙ any-false-keep _ q rs (sym (any-map _ key rs) ∙ d.0),
      keep_rows-Distinct q rs d.1,
    )
    | inr h ↦ rw h (keep_rows-Distinct q rs d.1)
  ]

  pub map-snoc : (rs : List R) (r : R) → map key (rs ++ r ∷ []) ≡ map key rs ++ key r ∷ []
  map-snoc [] r = refl
  map-snoc (x ∷ rs) r = ap (◌∷◌ (key x)) (map-snoc rs r)

  -- a row with a new key may be put at the end
  pub snoc_row-Distinct :
      (rs : List R) (r : R)
      → Distinct (map key rs)
      → any (λ x. e.beq (key x) (key r)) rs ≡ false
      → Distinct (map key (rs ++ r ∷ []))
  snoc_row-Distinct rs r d h =
      rw (map-snoc rs r) (snoc-Distinct (map key rs) (key r) d (any-map _ key rs ∙ h))

  -- an update that leaves the keys alone
  pub map_update :
      (g : R → R) (rs : List R) → ((r : R) → key (g r) ≡ key r) → map key (map g rs) ≡ map key rs
  map_update g [] h = refl
  map_update g (r ∷ rs) h = ap₂ ◌∷◌ (h r) (map_update g rs h)

module _ {ℓ} {A : Type ℓ} ⦃e : Comparable A⦄ where
  -- what holds of whatever is in the list holds of each
  pub All_of_any {κ} :
      (P : A → Type κ) (xs : List A)
      → ((a : A) → any (λ key. e.beq key a) xs ≡ true → P a)
      → All P xs
  All_of_any P [] f = tt
  All_of_any P (x ∷ xs) f =
      (f x (ground (arith, (e.beq_iff x x).1 refl)), All_of_any P xs (λ a h. f a (ground arith)))

  -- a list with no member
  pub empty_of_any : (xs : List A) → ((a : A) → any (λ key. e.beq key a) xs ≡ false) → xs ≡ []
  empty_of_any [] f = refl
  empty_of_any (x ∷ xs) f = absurd (ground (arith, f x, (e.beq_iff x x).1 refl))
