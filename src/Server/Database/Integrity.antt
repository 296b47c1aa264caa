-- ===== src/Server/Database/Integrity.antt =====
-- The constraints UNIQUE, PRIMARY KEY and REFERENCES of server/database/schema.sql as a predicate
-- on the tables.
pub mod Machines
pub mod Renaming
pub mod Watchers
pub mod Files
pub mod Redirections
pub mod History
use tiny_file_watcher.Prelude.{
  ℕ, ◌≡◌, refl, ◌∙◌, String, Bool, true, false, not, ◌&&◌, List, [], ◌∷◌, map, any, keep, All,
  Distinct, string_comparable, nat_comparable, arith, ◌==◌, eq_iff,
}
use tiny_file_watcher.Server.Database.{
  Machine, FileWatcher, WatchedRow, FileRedirection, Db, has_machine, has_watcher,
}

pub record IsConsistent (db : Db) : Type 0 where
  pub machine_names : Distinct (map (λ (m : Machine). m.name) db.machines)
  pub watcher_names : Distinct (map (λ (w : FileWatcher). w.name) db.watchers)
  pub watcher_ids : Distinct (map (λ (w : FileWatcher). w.id) db.watchers)
  pub file_ids : Distinct (map (λ (f : WatchedRow). f.id) db.files)
  pub redirection_names : Distinct (map (λ (r : FileRedirection). r.watcher_name) db.redirections)
  pub on_machine :
      All (λ (w : FileWatcher). has_machine w.machine_name db.machines ≡ true) db.watchers
  pub of_watcher : All (λ (f : WatchedRow). has_watcher f.watcher_name db.watchers ≡ true) db.files
  pub redirects :
      All
        (λ (r : FileRedirection).
          (has_watcher r.watcher_name db.watchers ≡ true)
          × (has_machine r.target_machine_name db.machines ≡ true))
        db.redirections
