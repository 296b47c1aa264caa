-- ===== src/Server/Watcher/Ignore/Relative.antt =====
-- server/watcher/tfwignore.go: the path that the ignore patterns see.
use Prim.Native.Char.{Char, code}
use Prim.Native.String.{◌++◌ as append}
use text.Mathlib.TextLemmas.{cons-append, nil-append, head-eq_of_cons-eq}
use text.Mathlib.TextEquality.{Char-path}
use mathlib.Core.Path.{ap₂}
use tiny_file_watcher.Prelude.{
  length, length-append, ◌≡◌, refl, sym, ap, ◌∙◌, String, Bool, false, not, some, List, [], ◌∷◌,
  ◌++◌, ◌==◌, All, All-append, keep, keep_all, All_mono, nat_eq, nat_eq_iff, arith, eq_refl, eq_iff,
  Bool-cases, inl, inr,
}
use tiny_file_watcher.Internal.FilePath.{slash, is_sep, clean, join_elems}
use tiny_file_watcher.Internal.FilePath.Split.{IsElem, spell, split-spell, is_rooted-spell}
use tiny_file_watcher.Internal.FilePath.Canonical.{join-dir-base}
use tiny_file_watcher.Server.Watcher.Ignore.{
  file_ignorer, strip_common, climb, elems, rel, trim_dot_slash, matches_path,
}

strip_common-append : (bs ts : List String) → strip_common bs (bs ++ ts) ≡ ([], ts)
unfolding strip_common
strip_common-append [] ts = refl
strip_common-append (b ∷ bs) ts = rw (eq_refl b) (strip_common-append bs ts)

elems-spell :
    (xs : List String) (n : String) → All IsElem xs → IsElem n → elems (spell xs n) ≡ xs ++ n ∷ []
elems-spell xs n h e =
    ap (keep (λ x. not (x == ""))) (split-spell xs n h e.plain)
    ∙ keep_all _ (xs ++ n ∷ []) (
        All_mono IsElem _ (xs ++ n ∷ []) (λ x i. ap not i.not_empty)
          (All-append IsElem xs (n ∷ []) h (e, tt)))

clean-elem :
    (xs : List String) (n : String) → All IsElem xs → IsElem n → clean (spell xs n) ≡ spell xs n
clean-elem xs n h e = let (d, b, j, c) = join-dir-base xs n h e in c

rooted-not_dot : (t : String) → (String.◌∷◌ slash t == ".") ≡ false
rooted-not_dot t = elim (Bool-cases (String.◌∷◌ slash t == ".")) [
  | inl h ↦
      absurd (omega (arith, ap code (head-eq_of_cons-eq ((eq_iff (String.◌∷◌ slash t) ".").0 h))))
  | inr h ↦ h
]

spell-not_dot : (xs : List String) (n : String) → (spell xs n == ".") ≡ false
unfolding spell
spell-not_dot [] n = rooted-not_dot n
spell-not_dot (x ∷ xs) n = rooted-not_dot _

dot_char : (c : Char) → (String.◌∷◌ c "" == ".") ≡ false → nat_eq (code c) b'.' ≡ false
dot_char c h = elim (Bool-cases (nat_eq (code c) b'.')) [
  | inl e ↦ absurd (
      ground (
        arith,
        h,
        (eq_iff (String.◌∷◌ c "") ".").1
            (ap (λ d. String.◌∷◌ d "") (Char-path c "." ((nat_eq_iff (code c) b'.').0 e))),
      ))
  | inr e ↦ e
]

-- an element at the front of a path is not "."
trim_first :
    (y rest : String)
    → IsElem y
    → trim_dot_slash (append y (String.◌∷◌ slash rest)) ≡ append y (String.◌∷◌ slash rest)
unfolding trim_dot_slash is_sep
trim_first String.[] rest e = absurd (ground (arith, e.not_empty))
trim_first (String.◌∷◌ c String.[]) rest e =
    rw (cons-append c "" (String.◌∷◌ slash rest), nil-append (String.◌∷◌ slash rest))
      (ground (arith, dot_char c e.not_dot))
trim_first (String.◌∷◌ c (String.◌∷◌ d s)) rest e =
    rw
      (
        cons-append c (String.◌∷◌ d s) (String.◌∷◌ slash rest),
        cons-append d s (String.◌∷◌ slash rest),
      )
      (ground (arith, e.plain))

trim_last : (y : String) → IsElem y → trim_dot_slash y ≡ y
unfolding trim_dot_slash is_sep
trim_last String.[] e = refl
trim_last (String.◌∷◌ c String.[]) e = refl
trim_last (String.◌∷◌ c (String.◌∷◌ d s)) e = ground (arith, e.plain)

trim-join_elems :
    (ys : List String) (m : String)
    → All IsElem ys
    → IsElem m
    → trim_dot_slash (join_elems (ys ++ m ∷ [])) ≡ join_elems (ys ++ m ∷ [])
unfolding join_elems
trim-join_elems [] m h e = trim_last m e
trim-join_elems (y ∷ []) m h e = trim_first y m h.0
trim-join_elems (y ∷ z ∷ ys) m h e = trim_first y (join_elems (z ∷ (ys ++ m ∷ []))) h.0

-- a longer path is another path
longer :
    (xs : List String) (n : String) (ys : List String) (m : String)
    → All IsElem xs
    → IsElem n
    → All IsElem ys
    → IsElem m
    → (spell (xs ++ n ∷ ys) m == spell xs n) ≡ false
longer xs n ys m hx hn hy hm = elim (Bool-cases (spell (xs ++ n ∷ ys) m == spell xs n)) [
  | inl h ↦
      let same_elems : (xs ++ n ∷ ys) ++ m ∷ [] ≡ xs ++ n ∷ [] =
        sym (elems-spell (xs ++ n ∷ ys) m (All-append IsElem xs (n ∷ ys) hx (hn, hy)) hm)
        ∙ ap elems ((eq_iff (spell (xs ++ n ∷ ys) m) (spell xs n)).0 h)
        ∙ elems-spell xs n hx hn in
      absurd (
        omega (
          arith,
          ap length same_elems,
          length-append (xs ++ n ∷ ys) (m ∷ []),
          length-append xs (n ∷ ys),
          length-append xs (n ∷ []),
        ))
  | inr h ↦ h
]

append_below :
    (xs : List String) (n : String) (ys : List String) (m : String)
    → (xs ++ n ∷ ys) ++ m ∷ [] ≡ (xs ++ n ∷ []) ++ (ys ++ m ∷ [])
append_below [] n ys m = refl
append_below (x ∷ xs) n ys m = ap (◌∷◌ x) (append_below xs n ys m)

rel-below :
    (xs : List String) (n : String) (ys : List String) (m : String)
    → All IsElem xs
    → IsElem n
    → All IsElem ys
    → IsElem m
    → rel (spell xs n) (spell (xs ++ n ∷ ys) m) ≡ some (join_elems (ys ++ m ∷ []))
unfolding rel climb
rel-below xs n ys m hx hn hy hm =
    let below = All-append IsElem xs (n ∷ ys) hx (hn, hy) in
    rw (clean-elem xs n hx hn, clean-elem (xs ++ n ∷ ys) m below hm)
      (rw (longer xs n ys m hx hn hy hm, spell-not_dot xs n)
        (rw (is_rooted-spell xs n, is_rooted-spell (xs ++ n ∷ ys) m)
          (ap climb (
            ap₂ strip_common (elems-spell xs n hx hn)
              (elems-spell (xs ++ n ∷ ys) m below hm ∙ append_below xs n ys m)
            ∙ strip_common-append (xs ++ n ∷ []) (ys ++ m ∷ [])))))

-- For an absolute source path of proper elements and a file below it, the compiled patterns of
-- .tfwignore are asked about the elements of the file's path below the source path, joined by
-- slashes, and their answer is what MatchesPath returns.
pub matches_path_lem :
    (compiled : String → Bool) (xs : List String) (n : String) (ys : List String) (m : String)
    → All IsElem xs
    → IsElem n
    → All IsElem ys
    → IsElem m
    → matches_path (file_ignorer compiled) (spell xs n) (spell (xs ++ n ∷ ys) m)
      ≡ compiled (join_elems (ys ++ m ∷ []))
unfolding matches_path
matches_path_lem compiled xs n ys m hx hn hy hm =
    rw (rel-below xs n ys m hx hn hy hm, matches_path) (ap compiled (trim-join_elems ys m hy hm))
