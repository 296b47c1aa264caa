-- ===== src/Internal/FilePath/Canonical.antt =====
-- path/filepath: `Dir`, `Base`, `Join` and `Clean` on absolute paths. The database stores a file as
-- the first two, and lists it by `Join`.
use Prim.Native.String.{◌++◌ as append}
use text.Mathlib.TextLemmas.{nil-append, cons-append, append_assoc}
use tiny_file_watcher.Prelude.{
  ◌≡◌, refl, ap, ◌∙◌, String, false, List, [], ◌∷◌, ◌++◌, ◌==◌, arith, All, All-append,
  if◌then◌else◌,
}
use tiny_file_watcher.Internal.FilePath.{
  slash, is_sep, is_rooted, join_elems, render, clean, join, dir, last_elem, base,
}
use tiny_file_watcher.Internal.FilePath.Split.{
  IsElem, spell, dirs, dir_path, split-spell, dir_prefix-spell, clean-split, clean-split_sep,
  render-spell, is_rooted-spell, cons-not_empty, push-empty, push-elem, split-sep, split-plain,
}

last_elem-append :
    (found : String) (xs : List String) (n : String)
    → (n == "") ≡ false
    → last_elem found (xs ++ n ∷ []) ≡ n
unfolding last_elem
last_elem-append found [] n h = ground arith
last_elem-append found (x ∷ xs) n h = last_elem-append (if x == "" then found else x) xs n h

spell-not_empty : (xs : List String) (n : String) → (spell xs n == "") ≡ false
unfolding spell
spell-not_empty [] n = cons-not_empty slash n
spell-not_empty (x ∷ xs) n = cons-not_empty slash _

dir-spell :
    (xs : List String) (n : String) → All IsElem xs → IsElem n → dir (spell xs n) ≡ dir_path xs
unfolding dir dir_path dirs
dir-spell xs n h e =
    ap clean (dir_prefix-spell xs n h e.plain)
    ∙ clean-split_sep (spell xs "") xs (is_rooted-spell xs "") (split-spell xs "" h refl) h

base-spell : (xs : List String) (n : String) → All IsElem xs → IsElem n → base (spell xs n) ≡ n
unfolding base
base-spell xs n h e =
    rw (spell-not_empty xs n, split-spell xs n h e.plain)
      (last_elem-append "/" ("" ∷ xs) n e.not_empty)

clean-spell :
    (xs : List String) (n : String) → All IsElem xs → IsElem n → clean (spell xs n) ≡ spell xs n
clean-spell xs n h e =
    clean-split (spell xs n) (xs ++ n ∷ []) (is_rooted-spell xs n) (split-spell xs n h e.plain)
      (All-append IsElem xs (n ∷ []) h (e, tt))
    ∙ render-spell xs n

append-join_elems :
    (x : String) (xs : List String) (n : String)
    → append (join_elems (x ∷ xs)) (String.◌∷◌ slash n) ≡ append x (spell xs n)
unfolding join_elems spell
append-join_elems x [] n = refl
append-join_elems x (y ∷ xs) n = rw (append_assoc, cons-append, append-join_elems y xs n)

clean_root : (n : String) → IsElem n → clean (String.◌∷◌ slash (String.◌∷◌ slash n)) ≡ spell [] n
unfolding clean is_rooted is_sep render spell join_elems
clean_root n e =
    rw (split-sep (String.◌∷◌ slash n), split-sep n, split-plain n e.plain)
      (rw (push-empty []) (rw (push-empty []) (rw (push-elem [] n e) refl)))

append-slash : (t : String) → append "/" t ≡ String.◌∷◌ slash t
append-slash t = cons-append slash "" t ∙ ap (String.◌∷◌ slash) (nil-append t)

pub join-dir_path :
    (xs : List String) (n : String) → All IsElem xs → IsElem n → join (dir_path xs) n ≡ spell xs n
unfolding join dir_path render join_elems clean spell
join-dir_path [] n h e = ap clean (append-slash (String.◌∷◌ slash n)) ∙ clean_root n e
join-dir_path (x ∷ xs) n h e = rw (cons-not_empty slash (join_elems (x ∷ xs))) (
    ap clean
      (cons-append slash (join_elems (x ∷ xs)) _ ∙ ap (String.◌∷◌ slash) (append-join_elems x xs n))
    ∙ clean-spell (x ∷ xs) n h e)

-- For an absolute path spelled by proper elements (not empty, no separator, neither . nor ..),
-- Dir gives the spelling of the elements before the last, Base the last, Join of the two and Clean
-- give the path itself.
pub join-dir-base :
    (xs : List String) (n : String)
    → All IsElem xs
    → IsElem n
    → (dir (spell xs n) ≡ dir_path xs)
      × (base (spell xs n) ≡ n)
      × (join (dir (spell xs n)) (base (spell xs n)) ≡ spell xs n)
      × (clean (spell xs n) ≡ spell xs n)
join-dir-base xs n h e =
    let d = dir-spell xs n h e in
    let b = base-spell xs n h e in (d, b, rw (d, b) (join-dir_path xs n h e), clean-spell xs n h e)
