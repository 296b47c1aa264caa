-- ===== src/Server/Web/Upload/Names.antt =====
-- path/filepath's Base on the name of an uploaded file: the names of entries that it gives.
use Prim.Native.Char.{Char}
use tiny_file_watcher.Prelude.{
  ◌≡◌, refl, String, true, false, List, [], ◌∷◌, ◌==◌, ◌⊎◌, inl, inr, All, Bool-cases, eq_iff,
}
use tiny_file_watcher.Internal.FilePath.{is_sep, cons_head, split, last_elem, base}
use tiny_file_watcher.Internal.FilePath.Split.{IsElem, no_sep}

-- a name that stands for a folder: the one it is joined to, the one above that, or the root
abbrev pub IsFolderName : String → Type 0
IsFolderName b = (b ≡ ".") ⊎ (b ≡ "..") ⊎ (b ≡ "/")

abbrev IsFound : String → Type 0
IsFound b = (b ≡ "/") ⊎ ((no_sep b ≡ true) × ((b == "") ≡ false))

cons_head-plain :
    (c : Char) (xs : List String)
    → is_sep c ≡ false
    → All (λ x. no_sep x ≡ true) xs
    → All (λ x. no_sep x ≡ true) (cons_head c xs)
cons_head-plain c [] e a = (rw e refl, tt)
cons_head-plain c (x ∷ xs) e a = (rw e a.0, a.1)

split-plain_elems : (s : String) → All (λ x. no_sep x ≡ true) (split s)
unfolding split
split-plain_elems String.[] = (refl, tt)
split-plain_elems (String.◌∷◌ c s) = elim (Bool-cases (is_sep c)) [
  | inl e ↦ rw e (refl, split-plain_elems s)
  | inr e ↦ rw e (cons_head-plain c (split s) e (split-plain_elems s))
]

last_elem-IsFound :
    (found : String) (xs : List String)
    → IsFound found
    → All (λ x. no_sep x ≡ true) xs
    → IsFound (last_elem found xs)
unfolding last_elem
last_elem-IsFound found [] f a = f
last_elem-IsFound found (x ∷ xs) f a = elim (Bool-cases (x == "")) [
  | inl e ↦ rw e (last_elem-IsFound found xs f a.1)
  | inr e ↦ rw e (last_elem-IsFound x xs (inr (a.0, e)) a.1)
]

found-cases : (b : String) → IsFound b → IsElem b ⊎ IsFolderName b
found-cases b (inl e) = inr (inr (inr e))
found-cases b (inr (p, n)) = elim (Bool-cases (b == ".")) [
  | inl e ↦ inr (inl ((eq_iff b ".").0 e))
  | inr e ↦ elim (Bool-cases (b == "..")) [
    | inl d ↦ inr (inr (inl ((eq_iff b "..").0 d)))
    | inr d ↦ inl (record { plain = p; not_empty = n; not_dot = e; not_dots = d })
  ]
]

pub base-cases : (s : String) → IsElem (base s) ⊎ IsFolderName (base s)
unfolding base
base-cases s = elim (Bool-cases (s == "")) [
  | inl e ↦ rw e (inr (inl refl))
  | inr e ↦ rw e (found-cases _ (last_elem-IsFound "/" (split s) (inl refl) (split-plain_elems s)))
]
