-- ===== src/Server/Database.antt =====
-- server/database: the rows, the tables of schema.sql and the state of the SQLite database.
pub mod Machines
pub mod Watchers
pub mod Files
pub mod Redirections
pub mod Integrity
pub mod Pending
pub mod Flushing
pub mod Lookup
pub mod Paths
pub mod Repositories
use Prim.Native.Nat.{max}
use tiny_file_watcher.Prelude.{ℕ, ◌+◌, ◌*◌, ◌/◌, String, Bool, ◌==◌, List, [], ◌∷◌, any}

-- a row of machines; the port is the bit pattern of an int32
pub record Machine : Type 0 where
  pub id : ℕ
  pub name : String
  pub ip : String
  pub ssh_port : ℕ
  pub ssh_user : String
  pub ssh_private_key_path : String
  pub created_at : ℕ
  pub updated_at : ℕ

-- a row of file_watchers
pub record FileWatcher : Type 0 where
  pub id : ℕ
  pub machine_name : String
  pub name : String
  pub source_path : String
  pub created_at : ℕ
  pub updated_at : ℕ

-- a row of watched_files: the path is that of the parent directory
pub record WatchedRow : Type 0 where
  pub id : ℕ
  pub watcher_name : String
  pub file_name : String
  pub file_path : String
  pub detected_at : ℕ
  pub flushed : Bool

-- what the program reads such a row as: the path is that of the file
pub record WatchedFile : Type 0 where
  pub id : ℕ
  pub watcher_name : String
  pub file_path : String
  pub flushed : Bool
  pub detected_at : ℕ

-- a row of file_redirections
pub record FileRedirection : Type 0 where
  pub watcher_name : String
  pub target_path : String
  pub target_machine_name : String
  pub created_at : ℕ
  pub updated_at : ℕ

-- The tables, each in the order of insertion, and the time in nanoseconds. Foreign keys are
-- enforced, as `Open` asks for.
pub record Db : Type 0 where
  pub machines : List Machine
  pub watchers : List FileWatcher
  pub files : List WatchedRow
  pub redirections : List FileRedirection
  pub clock : ℕ

-- a time as RFC 3339 text and back: whole seconds
abbrev pub rfc3339 : ℕ → ℕ
rfc3339 t = t / 1000000000 * 1000000000

unfoldable pub largest : List ℕ → ℕ
largest [] = 0
largest (x ∷ xs) = max x (largest xs)

-- the id that SQLite gives to the next row of an INTEGER PRIMARY KEY
unfoldable pub next_id : List ℕ → ℕ
next_id ids = largest ids + 1

abbrev pub has_machine : String → List Machine → Bool
has_machine k ms = any (λ m. m.name == k) ms

abbrev pub has_watcher : String → List FileWatcher → Bool
has_watcher k ws = any (λ w. w.name == k) ws

abbrev pub has_redirection : String → List FileRedirection → Bool
has_redirection k rs = any (λ r. r.watcher_name == k) rs

abbrev pub has_files : String → List WatchedRow → Bool
has_files k fs = any (λ f. f.watcher_name == k) fs

abbrev pub redirects_to : String → List FileRedirection → Bool
redirects_to k rs = any (λ r. r.target_machine_name == k) rs
