-- ===== src/Internal/Set/Valid.antt =====
-- internal/set.go: sequences of calls on a `Set[T]`.
use mathlib.Core.Path.{subst, fun_ext}
use tiny_file_watcher.Prelude.{
  ap, ◌∙◌, ◌+◌, ◌≡◌, refl, Bool, true, false, not, ◌&&◌, ◌||◌, List, [], ◌∷◌, arith, any, keep,
  length, Comparable, Distinct, keep-Distinct, Bool-cases, inl, inr,
}
use tiny_file_watcher.Internal.Set.{Set, new_set, contains, add, remove, clear, size, items}
use tiny_file_watcher.Internal.Set.Laws.{contains-new_set, contains-add, contains-remove}

module _ {ℓ} {A : Type ℓ} ⦃e : Comparable A⦄ where
  -- the keys of the map are distinct, and the counter counts them
  pub record IsValid (s : Set A) : Type 0 where
    pub distinct : Distinct s.keys
    pub counted : s.count ≡ length s.keys

  keep_absent :
      (x : A) (xs : List A)
      → any (λ key. e.beq key x) xs ≡ false
      → keep (λ key. not (e.beq key x)) xs ≡ xs
  keep_absent x [] h = refl
  keep_absent x (y ∷ xs) h = ground (arith, keep_absent x xs)

  -- one occurrence goes with the key
  length-without :
      (x : A) (xs : List A)
      → Distinct xs
      → any (λ key. e.beq key x) xs ≡ true
      → length (keep (λ key. not (e.beq key x)) xs) + 1 ≡ length xs
  length-without x [] d h = absurd (ground arith)
  length-without x (y ∷ xs) d h = elim (Bool-cases (e.beq y x)) [
    | inl here ↦
        let gone : any (λ key. e.beq key x) xs ≡ false =
          subst (λ z. any (λ key. e.beq key z) xs ≡ false) ((e.beq_iff y x).0 here) d.0 in
        ground (arith, keep_absent x xs gone)
    | inr there ↦ ground (arith, length-without x xs d.1)
  ]

  pub new_set-IsValid : IsValid (new_set {A = A})
  unfolding new_set
  new_set-IsValid = record { distinct = tt; counted = refl }

  clear-IsValid : (s : Set A) → IsValid (clear s)
  unfolding clear
  clear-IsValid s = record { distinct = tt; counted = refl }

  pub add-IsValid : (s : Set A) (x : A) → IsValid s → IsValid (add s x)
  unfolding add contains
  add-IsValid s x v = ground arith

  pub remove-IsValid : (s : Set A) (x : A) → IsValid s → IsValid (remove s x)
  unfolding remove contains
  remove-IsValid s x v = elim (Bool-cases (contains s x)) [
    | inl h ↦ rw h (record {
      distinct = keep-Distinct _ s.keys v.distinct;
      counted = omega (arith, length-without x s.keys v.distinct h, v.counted);
    })
    | inr h ↦ rw h v
  ]

-- the calls that change a set
pub data Op {ℓ} (A : Type ℓ) : Type ℓ where
  adds removes : A → Op A
  clears : Op A

module _ {ℓ} {A : Type ℓ} ⦃e : Comparable A⦄ where
  abbrev pub apply : Set A → Op A → Set A
  apply s (adds x) = add s x
  apply s (removes x) = remove s x
  apply s clears = clear s

  abbrev pub run : Set A → List (Op A) → Set A
  run s [] = s
  run s (o ∷ os) = run (apply s o) os

  -- membership as the calls define it: the last call about an element decides
  abbrev pub member : (A → Bool) → List (Op A) → A → Bool
  member m [] y = m y
  member m (adds x ∷ os) y = member (λ z. e.beq x z || m z) os y
  member m (removes x ∷ os) y = member (λ z. not (e.beq x z) && m z) os y
  member m (clears ∷ os) y = member (λ z. false) os y

  member_ext :
      (m n : A → Bool) (os : List (Op A)) (y : A)
      → ((z : A) → m z ≡ n z)
      → member m os y ≡ member n os y
  member_ext m n os y h = ap (λ (f : A → Bool). member f os y) (fun_ext h)

  run-IsValid : (s : Set A) (os : List (Op A)) → IsValid s → IsValid (run s os)
  run-IsValid s [] v = v
  run-IsValid s (adds x ∷ os) v = run-IsValid (add s x) os (add-IsValid s x v)
  run-IsValid s (removes x ∷ os) v = run-IsValid (remove s x) os (remove-IsValid s x v)
  run-IsValid s (clears ∷ os) v = run-IsValid (clear s) os (clear-IsValid s)

  contains-clear : (s : Set A) (y : A) → contains (clear s) y ≡ false
  unfolding clear contains
  contains-clear s y = refl

  contains-run :
      (s : Set A) (os : List (Op A)) (y : A) → contains (run s os) y ≡ member (contains s) os y
  contains-run s [] y = refl
  contains-run s (adds x ∷ os) y =
      contains-run (add s x) os y ∙ member_ext _ _ os y (contains-add s x)
  contains-run s (removes x ∷ os) y =
      contains-run (remove s x) os y ∙ member_ext _ _ os y (contains-remove s x)
  contains-run s (clears ∷ os) y =
      contains-run (clear s) os y ∙ member_ext _ _ os y (contains-clear s)

  -- After any calls of Add, Remove and Clear on a new set, Contains answers by the last call about
  -- the element, Items lists exactly the elements that Contains accepts, each once, and Size is
  -- the number of elements that Items lists.
  pub run-new_set :
      (os : List (Op A))
      → ((y : A) → contains (run new_set os) y ≡ member (λ z. false) os y)
        × ((y : A)
            → contains (run new_set os) y ≡ any (λ key. e.beq key y) (items (run new_set os)))
        × Distinct (items (run new_set os))
        × (size (run new_set os) ≡ length (items (run new_set os)))
  unfolding items size contains
  run-new_set os =
      let v : IsValid (run new_set os) = run-IsValid new_set os new_set-IsValid in
      (
        λ y. contains-run new_set os y ∙ member_ext _ _ os y contains-new_set,
        λ y. refl,
        v.distinct,
        v.counted,
      )
