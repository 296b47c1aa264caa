-- ===== src/Internal/Set.antt =====
-- internal/set.go: `Set[T]`, a map to empty structs beside a counter. The map is a list of keys;
-- a Go map lists its keys in no fixed order, so no statement rests on the order of `items`.
pub mod Laws
pub mod Valid
use tiny_file_watcher.Prelude.{
  ℕ, ◌+◌, ◌-◌, Bool, not, List, [], ◌∷◌, any, keep, Comparable, if◌then◌else◌,
}

pub record Set {ℓ} (A : Type ℓ) : Type ℓ where
  pub keys : List A
  pub count : ℕ

module _ {ℓ} {A : Type ℓ} where
  unfoldable pub new_set : Set A
  new_set = record { keys = []; count = 0 }

  -- the length is the capacity hint of the map
  unfoldable pub new_set_with_size : ℕ → Set A
  new_set_with_size len = record { keys = []; count = 0 }

  unfoldable pub clear : Set A → Set A
  clear s = record { keys = []; count = 0 }

  unfoldable pub items : Set A → List A
  items s = s.keys

  unfoldable pub size : Set A → ℕ
  size s = s.count

module _ {ℓ} {A : Type ℓ} ⦃e : Comparable A⦄ where
  unfoldable pub contains : Set A → A → Bool
  contains s item = any (λ key. e.beq key item) s.keys

  unfoldable pub add : Set A → A → Set A
  add s item = if contains s item then s else record s { keys = item ∷ s.keys; count = s.count + 1 }

  unfoldable pub remove : Set A → A → Set A
  remove s item =
      if contains s item
      then record s { keys = keep (λ key. not (e.beq key item)) s.keys; count = s.count - 1 }
      else s
