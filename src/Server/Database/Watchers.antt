-- ===== src/Server/Database/Watchers.antt =====
-- server/database/file_watcher_db.go
use mathlib.Core.Option.{get_or}
use tiny_file_watcher.Prelude.{
  ℕ, String, Bool, true, false, not, ◌&&◌, ◌||◌, Option, none, some, List, [], ◌∷◌, ◌++◌, map, ◌==◌,
  any, keep, first, nat_eq, if◌then◌else◌,
}
use tiny_file_watcher.Server.Outcome.{
  Exec, ok, err, DbError, no_rows, no_effect, unique_violation, foreign_key_violation,
}
use tiny_file_watcher.Server.Database.{
  FileWatcher, Db, rfc3339, next_id, has_machine, has_watcher, has_files, has_redirection,
}

unfoldable pub get_watcher_by_id : ℕ → Exec DbError Db FileWatcher
get_watcher_by_id id db = elim (first (λ w. nat_eq w.id id) db.watchers) [
  | none ↦ (err no_rows, db)
  | some w ↦ (ok w, db)
]

unfoldable pub get_watcher_by_name : String → Exec DbError Db FileWatcher
get_watcher_by_name name db = elim (first (λ w. w.name == name) db.watchers) [
  | none ↦ (err no_rows, db)
  | some w ↦ (ok w, db)
]

unfoldable pub list_watchers : Exec DbError Db (List FileWatcher)
list_watchers db = (ok db.watchers, db)

unfoldable pub list_watchers_by_machine : String → Exec DbError Db (List FileWatcher)
list_watchers_by_machine machine_name db =
    (ok (keep (λ w. w.machine_name == machine_name) db.watchers), db)

unfoldable pub new_watcher : String → String → String → ℕ → Db → FileWatcher
new_watcher name source_path machine_name now db = record {
  id = next_id (map (λ w. w.id) db.watchers);
  machine_name = machine_name;
  name = name;
  source_path = source_path;
  created_at = now;
  updated_at = now;
}

-- The stored times are rounded to seconds, the returned ones are not.
unfoldable pub create_watcher : String → String → String → Exec DbError Db FileWatcher
unfolding new_watcher
create_watcher name source_path machine_name db =
    if has_watcher name db.watchers
    then (err unique_violation, db)
    else if not (has_machine machine_name db.machines)
    then (err foreign_key_violation, db)
    else (
      ok (new_watcher name source_path machine_name db.clock db),
      record db {
        watchers =
            db.watchers ++ new_watcher name source_path machine_name (rfc3339 db.clock) db ∷ [];
      },
    )

abbrev pub is_none {ℓ} : {A : Type ℓ} → Option A → Bool
is_none none = true
is_none (some a) = false

-- UPDATE file_watchers SET … WHERE id=?, on one row
unfoldable pub assign_watcher : ℕ → Option String → Option String → ℕ → FileWatcher → FileWatcher
assign_watcher id name source_path now w =
    if nat_eq w.id id
    then record w {
      name = get_or name w.name;
      source_path = get_or source_path w.source_path;
      updated_at = rfc3339 now;
    }
    else w

unfoldable pub write_watcher : ℕ → Option String → Option String → Db → Db
unfolding assign_watcher
write_watcher id name source_path db = record db {
  watchers = map (assign_watcher id name source_path db.clock) db.watchers;
}

-- another watcher has the name
abbrev pub name_taken : ℕ → String → List FileWatcher → Bool
name_taken id name ws = any (λ v. not (nat_eq v.id id) && v.name == name) ws

-- UPDATE of the row `w`: the name is unique, and its old value may not be referred to any more
unfoldable pub update_row :
    ℕ → Option String → Option String → FileWatcher → Exec DbError Db FileWatcher
unfolding get_watcher_by_id write_watcher
update_row id name source_path w db =
    if name_taken id (get_or name w.name) db.watchers
    then (err unique_violation, db)
    else if not (get_or name w.name == w.name)
        && (has_files w.name db.files || has_redirection w.name db.redirections)
    then (err foreign_key_violation, db)
    else get_watcher_by_id id (write_watcher id name source_path db)

unfoldable pub update_watcher : ℕ → Option String → Option String → Exec DbError Db FileWatcher
unfolding update_row
update_watcher id name source_path db =
    if is_none name && is_none source_path
    then get_watcher_by_id id db
    else elim (first (λ w. nat_eq w.id id) db.watchers) [
      | none ↦ (err no_effect, db)
      | some w ↦ update_row id name source_path w db
    ]

-- its files and its redirection go with it
unfoldable pub delete_watcher : String → Exec DbError Db (Unit {0})
delete_watcher name db =
    if has_watcher name db.watchers
    then (
      ok tt,
      record db {
        watchers = keep (λ w. not (w.name == name)) db.watchers;
        files = keep (λ f. not (f.watcher_name == name)) db.files;
        redirections = keep (λ r. not (r.watcher_name == name)) db.redirections;
      },
    )
    else (err no_effect, db)
