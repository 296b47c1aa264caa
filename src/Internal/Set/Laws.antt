-- ===== src/Internal/Set/Laws.antt =====
-- internal/set.go: the operations of `Set[T]` seen through `contains`.
use mathlib.Core.Path.{subst}
use tiny_file_watcher.Prelude.{
  ◌≡◌, refl, true, false, not, ◌&&◌, ◌||◌, arith, any-keep, any_ext, any-guard, Comparable,
}
use tiny_file_watcher.Internal.Set.{Set, new_set, contains, add, remove}

pub contains-new_set {ℓ} : {A : Type ℓ} ⦃e : Comparable A⦄ (x : A) → contains new_set x ≡ false
unfolding contains new_set
contains-new_set x = refl

module _ {ℓ} {A : Type ℓ} ⦃e : Comparable A⦄ where
  pub beq_refl : (x : A) → e.beq x x ≡ true
  beq_refl x = (e.beq_iff x x).1 refl

  -- equal elements are contained alike
  contains-eq : (s : Set A) (x y : A) → e.beq x y ≡ true → contains s x ≡ contains s y
  contains-eq s x y h = subst (λ z. contains s x ≡ contains s z) ((e.beq_iff x y).0 h) refl

  pub contains-add : (s : Set A) (x y : A) → contains (add s x) y ≡ e.beq x y || contains s y
  unfolding add contains
  contains-add s x y = ground (arith, contains-eq s x y)

  dropped :
      (x y : A) (key : A) → (not (e.beq key x) && e.beq key y) ≡ (not (e.beq x y) && e.beq key y)
  dropped x y key = ground (arith, e.beq_iff key x, e.beq_iff key y, e.beq_iff x y)

  pub contains-remove :
      (s : Set A) (x y : A) → contains (remove s x) y ≡ not (e.beq x y) && contains s y
  unfolding remove contains
  contains-remove s x y = ground (
    arith,
    contains-eq s x y,
    any-keep (λ key. e.beq key y) (λ key. not (e.beq key x)) s.keys,
    any_ext (λ key. not (e.beq key x) && e.beq key y) (λ key. not (e.beq x y) && e.beq key y) s.keys
        (dropped x y),
    any-guard (not (e.beq x y)) (λ key. e.beq key y) s.keys,
  )
