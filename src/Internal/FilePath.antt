-- ===== src/Internal/FilePath.antt =====
-- Go's path/filepath on Unix, as far as the program calls it: `Clean`, `Join` of two elements,
-- `Dir` and `Base`. A Go string is the sequence of its characters.
pub mod Split
pub mod Canonical
use Prim.Native.Char.{Char, code}
use Prim.Native.String.{◌++◌ as append}
use mathlib.Core.List.{foldl, reverse}
use tiny_file_watcher.Prelude.{
  String, Bool, true, false, ◌||◌, List, [], ◌∷◌, ◌==◌, nat_eq, if◌then◌else◌,
}

abbrev pub slash : Char
slash = "/"

unfoldable pub is_sep : Char → Bool
is_sep c = nat_eq (code c) b'/'

abbrev pub cons_head : Char → List String → List String
cons_head c [] = String.◌∷◌ c "" ∷ []
cons_head c (x ∷ xs) = String.◌∷◌ c x ∷ xs

-- the elements of a path between its separators, empty ones included
unfoldable pub split : String → List String
split String.[] = "" ∷ []
split (String.◌∷◌ c s) = let rest = split s in if is_sep c then "" ∷ rest else cons_head c rest

unfoldable pub is_rooted : String → Bool
is_rooted String.[] = false
is_rooted (String.◌∷◌ c s) = is_sep c

-- `..` drops the element before it, and stays where there is none and the path is not rooted
unfoldable pub backtrack : Bool → List String → List String
backtrack true [] = []
backtrack false [] = ".." ∷ []
backtrack rooted (top ∷ rest) = if top == ".." then ".." ∷ top ∷ rest else rest

unfoldable pub push : Bool → List String → String → List String
push rooted out elem =
    if elem == "" || elem == "."
    then out
    else if elem == ".."
    then backtrack rooted out
    else elem ∷ out

unfoldable pub join_elems : List String → String
join_elems [] = ""
join_elems (x ∷ []) = x
join_elems (x ∷ y ∷ r) = append x (String.◌∷◌ slash (join_elems (y ∷ r)))

unfoldable pub render : Bool → List String → String
render true out = String.◌∷◌ slash (join_elems out)
render false [] = "."
render false (x ∷ xs) = join_elems (x ∷ xs)

-- filepath.Clean
unfoldable pub clean : String → String
clean path = render (is_rooted path) (reverse (foldl (push (is_rooted path)) [] (split path)))

-- filepath.Join(a, b)
unfoldable pub join : String → String → String
join a b =
    if a == "" then (if b == "" then "" else clean b) else clean (append a (String.◌∷◌ slash b))

-- the path up to its last separator, that included
unfoldable pub dir_prefix : String → String
dir_prefix String.[] = ""
dir_prefix (String.◌∷◌ c s) =
    let rest = dir_prefix s in
    if is_sep c then String.◌∷◌ c rest else if rest == "" then "" else String.◌∷◌ c rest

-- filepath.Dir
unfoldable pub dir : String → String
dir path = clean (dir_prefix path)

unfoldable pub last_elem : String → List String → String
last_elem found [] = found
last_elem found (x ∷ xs) = last_elem (if x == "" then found else x) xs

-- filepath.Base
unfoldable pub base : String → String
base path = if path == "" then "." else last_elem "/" (split path)
