-- ===== src/Server/Watcher/Walk.antt =====
-- server/watcher/sync.go: the walk of the source path (handleCurrentPaths and what it calls). A
-- walker of the remote file system (kr/fs) is the list of the entries that it steps through.
pub mod Tree
pub mod Terminates
pub mod Sets
pub mod Coverage
use tiny_file_watcher.Prelude.{
  ℕ, zero, suc, ◌+◌, String, Bool, ◌||◌, Option, none, some, List, [], ◌∷◌, ◌++◌, ◌==◌, length,
  string_comparable, if◌then◌else◌,
}
use tiny_file_watcher.Internal.Set.{Set, new_set, contains, add}
use tiny_file_watcher.Server.Watcher.Ignore.{Ignorer, matches_path, ignore_file_name, FileOpener}

-- one step of a walker: an entry that could not be read, a directory, a file with its name
pub data Visit : Type 0 where
  failed dir : String → Visit
  file : String → String → Visit

-- The remote file system during a sync: what opens its files, the entries below a path, and a list
-- with all its directories, which bounds the walk.
pub record RemoteFs : Type 0 where
  pub opener : FileOpener
  pub walk : String → List Visit
  pub dirs : List String

-- the sets that the walk fills
pub record Walk : Type 0 where
  pub analyzed : Set String
  pub on_disk : Set String
  pub added : Set String

-- what stays the same: the file system, the source path, the tracked paths and the rules
pub record Job : Type 0 where
  pub rfs : RemoteFs
  pub source_path : String
  pub watched : Set String
  pub ignorer : Ignorer

abbrev pub is_ignored : Job → String → String → Bool
is_ignored j path name = matches_path j.ignorer j.source_path path || name == ignore_file_name

unfoldable pub process_file : Job → String → String → Walk → Walk
process_file j path name w =
    if is_ignored j path name
    then w
    else if contains j.watched path
    then record w { on_disk = add w.on_disk path }
    else record w { on_disk = add w.on_disk path; added = add w.added path }

unfoldable pub enqueue_subdir : Job → String → Walk → Walk × Option (List Visit)
enqueue_subdir j path w =
    if contains w.analyzed path
    then (w, none)
    else (record w { analyzed = add w.analyzed path }, some (j.rfs.walk path))

abbrev cons_some {ℓ} : {A : Type ℓ} → Option A → List A → List A
cons_some none xs = xs
cons_some (some x) xs = x ∷ xs

-- the sets after a walker has run dry, and the walkers of new directories
unfoldable pub drain_walker : Job → List Visit → Walk → Walk × List (List Visit)
unfolding process_file enqueue_subdir
drain_walker j [] w = (w, [])
drain_walker j (failed path ∷ vs) w = drain_walker j vs w
drain_walker j (dir path ∷ vs) w =
    let (w', walker) = enqueue_subdir j path w in
    let (w'', walkers) = drain_walker j vs w' in (w'', cons_some walker walkers)
drain_walker j (file path name ∷ vs) w = drain_walker j vs (process_file j path name w)

-- `for len(queue) > 0`, on fuel; `none` means that the fuel ran out
unfoldable pub walk_queue : ℕ → Job → List (List Visit) → Walk → Option Walk
unfolding drain_walker
walk_queue fuel j [] w = some w
walk_queue zero j (current ∷ queue) w = none
walk_queue (suc fuel) j (current ∷ queue) w =
    let (w', walkers) = drain_walker j current w in walk_queue fuel j (queue ++ walkers) w'

abbrev pub start : Job → Walk
start j = record { analyzed = add new_set j.source_path; on_disk = new_set; added = new_set }

unfoldable pub handle_current_paths : Job → Option Walk
unfolding walk_queue
handle_current_paths j =
    walk_queue (length j.rfs.dirs + 1) j (j.rfs.walk j.source_path ∷ []) (start j)
