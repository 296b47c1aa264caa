-- ===== src/Tests/Texts.antt =====
-- The theorems on sets and on the ignore rules, on concrete inputs.
use tiny_file_watcher.Prelude.{
  Bool, Bool, refl, ◌≡◌, String, false, List, [], ◌∷◌, any, length, Distinct, ◌==◌,
  string_comparable,
}
use tiny_file_watcher.Internal.FilePath.{is_sep, join_elems}
use tiny_file_watcher.Internal.FilePath.Split.{IsElem, spell}
use tiny_file_watcher.Server.Watcher.Ignore.{file_ignorer, matches_path}
use tiny_file_watcher.Server.Watcher.Ignore.Relative.{matches_path_lem}
use tiny_file_watcher.Internal.Set.{new_set, contains, items, size}
use tiny_file_watcher.Internal.Set.Valid.{Op, adds, removes, run, member, run-new_set}

abbrev ops : List (Op String)
ops = adds "a" ∷ adds "b" ∷ adds "a" ∷ removes "a" ∷ removes "c" ∷ []

run-new_set_example :
    ((y : String) → contains (run new_set ops) y ≡ member (λ z. false) ops y)
    × ((y : String)
        → contains (run new_set ops) y ≡ any (λ key. key == y) (items (run new_set ops)))
    × Distinct (items (run new_set ops))
    × (size (run new_set ops) ≡ length (items (run new_set ops)))
run-new_set_example = run-new_set ops

abbrev logs : String → Bool
logs path = path == "logs/today.log"

srv : IsElem "srv"
unfolding is_sep
srv = record { plain = refl; not_empty = refl; not_dot = refl; not_dots = refl }

logs_dir : IsElem "logs"
unfolding is_sep
logs_dir = record { plain = refl; not_empty = refl; not_dot = refl; not_dots = refl }

today : IsElem "today.log"
unfolding is_sep
today = record { plain = refl; not_empty = refl; not_dot = refl; not_dots = refl }

matches_path_lem_example :
    matches_path (file_ignorer logs) (spell [] "srv") (spell ("srv" ∷ "logs" ∷ []) "today.log")
    ≡ logs (join_elems ("logs" ∷ "today.log" ∷ []))
matches_path_lem_example =
    matches_path_lem logs [] "srv" ("logs" ∷ []) "today.log" tt srv (logs_dir, tt) today
