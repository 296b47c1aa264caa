-- ===== src/Tests/Fixtures.antt =====
-- A machine with one directory and one file, a second machine, and a database that watches the
-- first and copies to the second.
use tiny_file_watcher.Prelude.{
  refl, String, Bool, false, List, [], ◌∷◌, ◌==◌, All, arith, Bool-cases, inl, inr, if◌then◌else◌,
  string_comparable,
}
use tiny_file_watcher.Internal.FilePath.{
  is_sep, split, is_rooted, backtrack, push, join_elems, render, clean, join, dir_prefix, dir,
  last_elem, base,
}
use tiny_file_watcher.Server.Outcome.{err}
use tiny_file_watcher.Server.Database.{Machine, FileWatcher, WatchedRow, FileRedirection, Db}
use tiny_file_watcher.Server.Database.Integrity.{IsConsistent}
use tiny_file_watcher.Server.Watcher.Ignore.{missing}
use tiny_file_watcher.Server.Watcher.Walk.{Visit, file, RemoteFs}
use tiny_file_watcher.Server.Watcher.Walk
use tiny_file_watcher.Server.Watcher.Walk.Tree.{IsTree}
use tiny_file_watcher.Server.Watcher.Walk.Terminates.{Covers-refl}
use tiny_file_watcher.Server.Watcher.Sync.Reconcile.{Canonical, ShowsCanonical}

abbrev pub no_rules : List String → String → Bool
no_rules lines path = false

abbrev pub visits : List Visit
visits = Walk.dir "/srv" ∷ file "/srv/a" "a" ∷ []

abbrev pub tree : RemoteFs
tree = record {
  opener = record { open_file = λ path. err missing };
  walk = λ path. if path == "/srv" then visits else [];
  dirs = "/srv" ∷ [];
}

pub tree-IsTree : IsTree tree "/srv"
tree-IsTree = record {
  covers = λ d m. elim (Bool-cases (d == "/srv")) [
    | inl e ↦ rw e (Covers-refl visits)
    | inr e ↦
        rw e
          (record { files = λ p n h. absurd (ground arith); dirs = λ c h. absurd (ground arith) })
  ];
  listed = λ d m. ground arith;
}

pub tree-ShowsCanonical : All ShowsCanonical (tree.walk "/srv")
unfolding is_sep split is_rooted backtrack push join_elems render clean join dir_prefix dir
    last_elem base
tree-ShowsCanonical = (tt, (refl, tt))

abbrev pub nas : Machine
nas = record {
  id = 1;
  name = "nas";
  ip = "10.0.0.1";
  ssh_port = 22;
  ssh_user = "u";
  ssh_private_key_path = "/k";
  created_at = 0;
  updated_at = 0;
}

abbrev pub vault : Machine
vault = record nas { id = 2; name = "vault" }

abbrev pub docs : FileWatcher
docs = record {
  id = 1;
  machine_name = "nas";
  name = "docs";
  source_path = "/srv";
  created_at = 0;
  updated_at = 0;
}

-- the row of a file that is no longer there
abbrev pub old_row : WatchedRow
old_row = record {
  id = 1;
  watcher_name = "docs";
  file_name = "b";
  file_path = "/srv";
  detected_at = 0;
  flushed = false;
}

abbrev pub to_vault : FileRedirection
to_vault = record {
  watcher_name = "docs";
  target_path = "/backup";
  target_machine_name = "vault";
  created_at = 0;
  updated_at = 0;
}

abbrev pub db : Db
db = record {
  machines = nas ∷ vault ∷ [];
  watchers = docs ∷ [];
  files = old_row ∷ [];
  redirections = to_vault ∷ [];
  clock = 5000000000;
}

pub db-IsConsistent : IsConsistent db
db-IsConsistent = record {
  machine_names = (refl, (refl, tt));
  watcher_names = (refl, tt);
  watcher_ids = (refl, tt);
  file_ids = (refl, tt);
  redirection_names = (refl, tt);
  on_machine = (refl, tt);
  of_watcher = (refl, tt);
  redirects = ((refl, refl), tt);
}

pub db-Canonical : Canonical "docs" db.files
unfolding is_sep split is_rooted backtrack push join_elems render clean join dir_prefix dir
    last_elem base
db-Canonical = (λ m. (refl, refl), tt)
