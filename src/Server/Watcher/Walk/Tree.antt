-- ===== src/Server/Watcher/Walk/Tree.antt =====
-- What the walk relies on of the remote file system (kr/fs): a walker goes through the whole tree
-- below its path, so that the walker of a directory in it shows nothing new.
use tiny_file_watcher.Prelude.{◌≡◌, String, Bool, true, false, ◌&&◌, List, ◌==◌, any}
use tiny_file_watcher.Server.Watcher.Walk.{Visit, failed, dir, file, RemoteFs}

abbrev pub is_dir : String → Visit → Bool
is_dir d (dir path) = path == d
is_dir d (failed path) = false
is_dir d (file path name) = false

abbrev pub is_file : String → String → Visit → Bool
is_file p n (file path name) = path == p && name == n
is_file p n (failed path) = false
is_file p n (dir path) = false

pub record Covers (all part : List Visit) : Type 0 where
  pub files : (p n : String) → any (is_file p n) part ≡ true → any (is_file p n) all ≡ true
  pub dirs : (d : String) → any (is_dir d) part ≡ true → any (is_dir d) all ≡ true

pub record IsTree (fs : RemoteFs) (root : String) : Type 0 where
  pub covers :
      (d : String) → any (is_dir d) (fs.walk root) ≡ true → Covers (fs.walk root) (fs.walk d)
  pub listed :
      (d : String) → any (is_dir d) (fs.walk root) ≡ true → any (λ x. x == d) fs.dirs ≡ true
