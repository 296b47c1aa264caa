-- ===== src/Internal/FilePath/Split.antt =====
-- path/filepath: what splitting, cleaning, `Dir` and `Base` give on the spelling of an absolute
-- path by its elements.
use Prim.Native.Char.{Char}
use Prim.Native.String.{◌++◌ as append}
use mathlib.Core.List.{foldl, reverse, foldl-append, reverse-reverse}
use text.Mathlib.TextLemmas.{nil-append, cons-append, cons≢nil}
use tiny_file_watcher.Prelude.{
  ◌≡◌, refl, ap, ◌∙◌, String, Bool, true, false, not, ◌&&◌, List, [], ◌∷◌, ◌++◌, ◌==◌, arith, All,
  Bool-cases, inl, inr, eq_iff,
}
use tiny_file_watcher.Internal.FilePath.{
  slash, is_sep, split, is_rooted, push, join_elems, render, clean, dir_prefix,
}

abbrev pub no_sep : String → Bool
no_sep String.[] = true
no_sep (String.◌∷◌ c s) = not (is_sep c) && no_sep s

-- a name of an entry in a directory
pub record IsElem (x : String) : Type 0 where
  pub plain : no_sep x ≡ true
  pub not_empty : (x == "") ≡ false
  pub not_dot : (x == ".") ≡ false
  pub not_dots : (x == "..") ≡ false

-- the absolute path with these directories and this last element
unfoldable pub spell : List String → String → String
spell [] n = String.◌∷◌ slash n
spell (x ∷ xs) n = String.◌∷◌ slash (append x (spell xs n))

-- the same up to the last separator
unfoldable pub dirs : List String → String
dirs xs = spell xs ""

pub split-sep : (t : String) → split (String.◌∷◌ slash t) ≡ "" ∷ split t
unfolding split is_sep
split-sep t = refl

split-append :
    (x t : String) → no_sep x ≡ true → split (append x (String.◌∷◌ slash t)) ≡ x ∷ split t
unfolding split
split-append String.[] t h = rw nil-append (split-sep t)
split-append (String.◌∷◌ c s) t h = rw cons-append (ground (arith, split-append s t))

pub split-plain : (x : String) → no_sep x ≡ true → split x ≡ x ∷ []
unfolding split
split-plain String.[] h = refl
split-plain (String.◌∷◌ c s) h = ground (arith, split-plain s)

split_tail :
    (x : String) (xs : List String) (n : String)
    → no_sep x ≡ true
    → All IsElem xs
    → no_sep n ≡ true
    → split (append x (spell xs n)) ≡ x ∷ (xs ++ n ∷ [])
unfolding spell
split_tail x [] n p h e = split-append x n p ∙ ap (◌∷◌ x) (split-plain n e)
split_tail x (y ∷ xs) n p h e = split-append x _ p ∙ ap (◌∷◌ x) (split_tail y xs n h.0.plain h.1 e)

pub split-spell :
    (xs : List String) (n : String)
    → All IsElem xs
    → no_sep n ≡ true
    → split (spell xs n) ≡ "" ∷ (xs ++ n ∷ [])
unfolding spell
split-spell [] n h e = split-sep n ∙ ap (◌∷◌ "") (split-plain n e)
split-spell (x ∷ xs) n h e = split-sep _ ∙ ap (◌∷◌ "") (split_tail x xs n h.0.plain h.1 e)

dir_prefix-plain : (x : String) → no_sep x ≡ true → dir_prefix x ≡ ""
unfolding dir_prefix
dir_prefix-plain String.[] h = refl
dir_prefix-plain (String.◌∷◌ c s) h = ground (arith, dir_prefix-plain s, eq_iff (dir_prefix s) "")

dir_prefix-sep : (t : String) → dir_prefix (String.◌∷◌ slash t) ≡ String.◌∷◌ slash (dir_prefix t)
unfolding dir_prefix is_sep
dir_prefix-sep t = refl

pub cons-not_empty : (c : Char) (s : String) → (String.◌∷◌ c s == "") ≡ false
cons-not_empty c s = elim (Bool-cases (String.◌∷◌ c s == "")) [
  | inl e ↦ absurd (cons≢nil ((eq_iff (String.◌∷◌ c s) "").0 e))
  | inr e ↦ e
]

append-not_empty : (x : String) (c : Char) (t : String) → (append x (String.◌∷◌ c t) == "") ≡ false
append-not_empty String.[] c t = rw nil-append (cons-not_empty c t)
append-not_empty (String.◌∷◌ d s) c t = rw cons-append (cons-not_empty d _)

dir_prefix-append :
    (x t : String)
    → no_sep x ≡ true
    → dir_prefix (append x (String.◌∷◌ slash t)) ≡ append x (String.◌∷◌ slash (dir_prefix t))
unfolding dir_prefix
dir_prefix-append String.[] t h = rw nil-append (rw nil-append (dir_prefix-sep t))
dir_prefix-append (String.◌∷◌ c s) t h = rw cons-append (
    rw cons-append (ground (arith, dir_prefix-append s t, append-not_empty s slash (dir_prefix t))))

dir_prefix-tail :
    (x : String) (xs : List String) (n : String)
    → no_sep x ≡ true
    → All IsElem xs
    → no_sep n ≡ true
    → dir_prefix (append x (spell xs n)) ≡ append x (dirs xs)
unfolding spell dirs
dir_prefix-tail x [] n p h e =
    dir_prefix-append x n p ∙ ap (λ t. append x (String.◌∷◌ slash t)) (dir_prefix-plain n e)
dir_prefix-tail x (y ∷ xs) n p h e =
    dir_prefix-append x _ p
    ∙ ap (λ t. append x (String.◌∷◌ slash t)) (dir_prefix-tail y xs n h.0.plain h.1 e)

pub dir_prefix-spell :
    (xs : List String) (n : String)
    → All IsElem xs
    → no_sep n ≡ true
    → dir_prefix (spell xs n) ≡ dirs xs
unfolding spell dirs
dir_prefix-spell [] n h e = dir_prefix-sep n ∙ ap (String.◌∷◌ slash) (dir_prefix-plain n e)
dir_prefix-spell (x ∷ xs) n h e =
    dir_prefix-sep _ ∙ ap (String.◌∷◌ slash) (dir_prefix-tail x xs n h.0.plain h.1 e)

pub push-elem : (out : List String) (x : String) → IsElem x → push true out x ≡ x ∷ out
unfolding push
push-elem out x h = ground arith

-- cleaning a rooted path keeps its elements
foldl-push :
    (xs out : List String) → All IsElem xs → foldl (push true) out xs ≡ foldl (λ r x. x ∷ r) out xs
foldl-push [] out h = refl
foldl-push (x ∷ xs) out h = rw (push-elem out x h.0) (foldl-push xs (x ∷ out) h.1)

pub push-empty : (out : List String) → push true out "" ≡ out
unfolding push
push-empty out = refl

pub is_rooted-spell : (xs : List String) (n : String) → is_rooted (spell xs n) ≡ true
unfolding is_rooted spell is_sep
is_rooted-spell [] n = refl
is_rooted-spell (x ∷ xs) n = refl

-- the spelling of the directory itself
unfoldable pub dir_path : List String → String
dir_path xs = render true xs

pub clean-split :
    (p : String) (xs : List String)
    → is_rooted p ≡ true
    → split p ≡ "" ∷ xs
    → All IsElem xs
    → clean p ≡ render true xs
unfolding clean
clean-split p xs r e h =
    rw (r, e, push-empty [], foldl-push xs [] h) (ap (render true) (reverse-reverse xs))

-- a trailing separator is dropped
pub clean-split_sep :
    (p : String) (xs : List String)
    → is_rooted p ≡ true
    → split p ≡ "" ∷ (xs ++ "" ∷ [])
    → All IsElem xs
    → clean p ≡ render true xs
unfolding clean render join_elems push
clean-split_sep p xs r e h =
    rw (r, e, push-empty [], foldl-append (push true) [] xs ("" ∷ []), foldl-push xs [] h)
      (rw (push-empty (reverse xs)) (ap (render true) (reverse-reverse xs)))

pub render-spell : (xs : List String) (n : String) → render true (xs ++ n ∷ []) ≡ spell xs n
unfolding render join_elems spell
render-spell [] n = refl
render-spell (x ∷ []) n = refl
render-spell (x ∷ y ∷ xs) n = ap (λ t. String.◌∷◌ slash (append x t)) (render-spell (y ∷ xs) n)
