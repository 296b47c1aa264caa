-- ===== src/Server/Watcher/Ignore.antt =====
-- server/watcher/tfwignore.go. The compiler of the patterns (go-gitignore) is a parameter.
pub mod Relative
use Prim.Native.Char.{Char, code}
use Prim.Native.String.{len}
use tiny_file_watcher.Prelude.{
  String, Bool, true, false, not, ◌&&◌, Option, none, some, List, [], ◌∷◌, ◌++◌, map, ◌==◌, ltb,
  nat_eq, keep, if◌then◌else◌,
}
use tiny_file_watcher.Internal.FilePath.{split, is_rooted, join_elems, clean}
use tiny_file_watcher.Server.Outcome.{Result, ok, err}

abbrev pub ignore_file_name : String
ignore_file_name = ".tfwignore"

-- why a remote file cannot be opened: os.ErrNotExist, or all else
pub data OpenError : Type 0 where
  missing unreadable : OpenError

-- FileOpener: the text of a remote file, as far as it can be read
pub record FileOpener : Type 0 where
  pub open_file : String → Result OpenError String

-- noopIgnorer, and fileIgnorer with its compiled patterns
pub data Ignorer : Type 0 where
  noop_ignorer : Ignorer
  file_ignorer : (String → Bool) → Ignorer

-- a line of a text, and the lines after it
abbrev cons_line : Char → List String → List String
cons_line c [] = String.◌∷◌ c "" ∷ []
cons_line c (x ∷ xs) = String.◌∷◌ c x ∷ xs

unfoldable pub split_lines : String → List String
split_lines String.[] = []
split_lines (String.◌∷◌ c s) =
    let rest = split_lines s in if nat_eq (code c) b'\n' then "" ∷ rest else cons_line c rest

-- bufio.ScanLines drops one carriage return at the end of a line
unfoldable pub drop_cr : String → String
drop_cr String.[] = ""
drop_cr (String.◌∷◌ c s) =
    let rest = drop_cr s in if nat_eq (code c) b'\r' && s == "" then "" else String.◌∷◌ c rest

-- bufio.Scanner stops, with an error that is not looked at, before a line that does not fit its
-- buffer of 64 KiB
unfoldable pub scan_lines : List String → List String
unfolding drop_cr
scan_lines [] = []
scan_lines (line ∷ rest) =
    let more = scan_lines rest in if ltb (len line) 65536 then drop_cr line ∷ more else []

-- the elements that two paths have in common are dropped
unfoldable pub strip_common : List String → List String → List String × List String
strip_common [] ts = ([], ts)
strip_common (b ∷ bs) [] = (b ∷ bs, [])
strip_common (b ∷ bs) (t ∷ ts) =
    let rest = strip_common bs ts in if t == b then rest else (b ∷ bs, t ∷ ts)

unfoldable pub climb : List String × List String → Option String
climb ([], ts) = some (join_elems ts)
climb (b ∷ bs, []) = some (join_elems (map (λ x. "..") (b ∷ bs)))
climb (b ∷ bs, t ∷ ts) =
    if b == ".." then none else some (join_elems (map (λ x. "..") (b ∷ bs) ++ t ∷ ts))

abbrev pub elems : String → List String
elems path = keep (λ x. not (x == "")) (split path)

abbrev same : Bool → Bool → Bool
same true b = b
same false b = not b

-- filepath.Rel; `none` is its error
unfoldable pub rel : String → String → Option String
unfolding strip_common climb
rel basepath targpath =
    let b = clean basepath in
    let t = clean targpath in
    let b' : String = if b == "." then "" else b in
    if t == b
    then some "."
    else if same (is_rooted b') (is_rooted t)
    then climb (strip_common (elems b') (elems t))
    else none

-- strings.TrimPrefix(s, "./")
unfoldable pub trim_dot_slash : String → String
trim_dot_slash (String.◌∷◌ c (String.◌∷◌ d s)) =
    if nat_eq (code c) b'.' && nat_eq (code d) b'/' then s else String.◌∷◌ c (String.◌∷◌ d s)
trim_dot_slash s = s

unfoldable pub matches_path : Ignorer → String → String → Bool
unfolding rel trim_dot_slash
matches_path noop_ignorer root abs_path = false
matches_path (file_ignorer compiled) root abs_path = elim (rel root abs_path) [
  | none ↦ false
  | some r ↦ compiled (trim_dot_slash r)
]

module _ (compile : List String → String → Bool) where
  unfoldable pub load_ignore : FileOpener → String → Result OpenError Ignorer
  unfolding split_lines scan_lines
  load_ignore client path = elim (client.open_file path) [
    | ok text ↦ ok (file_ignorer (compile (scan_lines (split_lines text))))
    | err missing ↦ ok noop_ignorer
    | err unreadable ↦ err unreadable
  ]
