-- ===== src/Server/Database/Redirections.antt =====
-- server/database/redirection_db.go
use tiny_file_watcher.Prelude.{
  ℕ, String, not, ◌||◌, Option, none, some, [], ◌∷◌, ◌++◌, map, ◌==◌, keep, first, if◌then◌else◌,
}
use tiny_file_watcher.Server.Outcome.{
  Exec, ok, err, DbError, no_rows, no_effect, unique_violation, foreign_key_violation,
}
use tiny_file_watcher.Server.Database.{
  FileRedirection, Db, rfc3339, has_machine, has_watcher, has_redirection,
}

unfoldable pub add_redirection : String → String → String → Exec DbError Db FileRedirection
add_redirection watcher_name target_path target_machine_name db =
    if has_redirection watcher_name db.redirections
    then (err unique_violation, db)
    else if not (has_watcher watcher_name db.watchers)
        || not (has_machine target_machine_name db.machines)
    then (err foreign_key_violation, db)
    else (
      ok (row db.clock),
      record db { redirections = db.redirections ++ row (rfc3339 db.clock) ∷ [] },
    )
  where
    row : ℕ → FileRedirection
    row now = record {
      watcher_name = watcher_name;
      target_path = target_path;
      target_machine_name = target_machine_name;
      created_at = now;
      updated_at = now;
    }

unfoldable pub get_redirection : String → Exec DbError Db FileRedirection
get_redirection watcher_name db =
    elim (first (λ r. r.watcher_name == watcher_name) db.redirections) [
      | none ↦ (err no_rows, db)
      | some r ↦ (ok r, db)
    ]

unfoldable pub remove_redirection : String → Exec DbError Db (Unit {0})
remove_redirection watcher_name db =
    if has_redirection watcher_name db.redirections
    then (
      ok tt,
      record db { redirections = keep (λ r. not (r.watcher_name == watcher_name)) db.redirections },
    )
    else (err no_effect, db)

-- UPDATE file_redirections SET … WHERE watcher_name = ?, on one row
unfoldable pub redirect : String → String → ℕ → FileRedirection → FileRedirection
redirect watcher_name target_path now r =
    if r.watcher_name == watcher_name
    then record r { target_path = target_path; updated_at = rfc3339 now }
    else r

unfoldable pub update_redirection : String → Option String → Exec DbError Db FileRedirection
unfolding get_redirection redirect
update_redirection watcher_name none db = get_redirection watcher_name db
update_redirection watcher_name (some target_path) db =
    if has_redirection watcher_name db.redirections
    then get_redirection watcher_name (record db {
      redirections = map (redirect watcher_name target_path db.clock) db.redirections;
    })
    else (err no_effect, db)
