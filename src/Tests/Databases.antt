-- ===== src/Tests/Databases.antt =====
-- The theorems on the database, the flush and the services of machines and redirections, on
-- concrete inputs.
use tiny_file_watcher.Prelude.{
  ◌+◌, not, ℕ, ◌≡◌, refl, true, false, List, [], ◌∷◌, map, ◌==◌, ◌⊎◌, keep,
}
use tiny_file_watcher.Internal.FilePath.{is_sep}
use tiny_file_watcher.Internal.FilePath.Split.{IsElem, spell}
use tiny_file_watcher.Server.Outcome.{ok, err, internal}
use tiny_file_watcher.Server.Database.{
  Machine, FileWatcher, FileRedirection, Db, has_redirection, has_watcher, redirects_to, rfc3339,
}
use tiny_file_watcher.Server.Database.Files.{new_row, read_row, is_file_of, list_pending_flushes}
use tiny_file_watcher.Server.Database.Machines.{get_machine_by_name, watchers_on}
use tiny_file_watcher.Server.Database.Redirections.{add_redirection}
use tiny_file_watcher.Server.Database.Integrity.{IsConsistent}
use tiny_file_watcher.Server.Database.Integrity.History.{
  Call, history, empty_db, create_machine, create_watcher, add_watched_file,
  add_redirection as redirects, delete_machine as deletes, history_of_empty-IsConsistent,
}
use tiny_file_watcher.Server.Database.Paths.{read_row-new_row}
use tiny_file_watcher.Server.Database.Pending.{pending_row, unflushed, list_pending_flushes_lem}
use tiny_file_watcher.Server.Database.Flushing.{flush_row}
use tiny_file_watcher.Server.Database.Repositories.{db_machine_repository}
use tiny_file_watcher.Server.Flush.Job.{run}
use tiny_file_watcher.Server.Flush.Transfer.{SftpClient, SftpDialer}
use tiny_file_watcher.Server.Flush.Success.{db_job, Ends, run-all_or_nothing}
use tiny_file_watcher.Server.Machine.{delete_machine}
use tiny_file_watcher.Server.Machine.Deletion.{Forgotten, delete_machine-Forgotten}
use tiny_file_watcher.Server.Redirection.{
  create_file_redirection, get_file_redirection, RedirectionMessage,
}
use tiny_file_watcher.Server.Redirection.Lookup.{db_service, create_file_redirection-get}
use tiny_file_watcher.Tests.Fixtures.{db, db-IsConsistent, to_vault}

-- a machine, a watcher and a file, and then the machine is deleted
abbrev calls : List Call
calls =
    create_machine "nas" "10.0.0.1" 22 "u" "/k"
    ∷ create_watcher "docs" "/srv" "nas"
    ∷ add_watched_file "docs" "/srv/a" false
    ∷ redirects "docs" "/backup" "nas"
    ∷ deletes "nas"
    ∷ []

history_of_empty-IsConsistent_example : IsConsistent (history (empty_db 0) calls)
history_of_empty-IsConsistent_example = history_of_empty-IsConsistent 0 calls

list_pending_flushes_lem_example :
    ((has_redirection "docs" db.redirections ≡ true)
      × (fr : FileRedirection) × (fw : FileWatcher) × (m : Machine) × (tm : Machine) × (keep
            (λ (r : FileRedirection). r.watcher_name == "docs")
            db.redirections
          ≡ fr ∷ [])
      × (keep (λ (x : FileWatcher). x.name == "docs") db.watchers ≡ fw ∷ [])
      × (keep (λ (x : Machine). x.name == fw.machine_name) db.machines ≡ m ∷ [])
      × (keep (λ (x : Machine). x.name == fr.target_machine_name) db.machines ≡ tm ∷ [])
      × (list_pending_flushes "docs" db
          ≡ (ok (map (pending_row fr m tm) (unflushed "docs" db.files)), db)))
    ⊎ ((has_redirection "docs" db.redirections ≡ false)
        × (list_pending_flushes "docs" db ≡ (ok [], db)))
list_pending_flushes_lem_example = list_pending_flushes_lem "docs" db db-IsConsistent

srv : IsElem "srv"
unfolding is_sep
srv = record { plain = refl; not_empty = refl; not_dot = refl; not_dots = refl }

notes : IsElem "notes.txt"
unfolding is_sep
notes = record { plain = refl; not_empty = refl; not_dot = refl; not_dots = refl }

read_row-new_row_example :
    (read_row (new_row 7 "docs" false 1500000000 (spell ("srv" ∷ []) "notes.txt")) ≡ record {
      id = 7;
      watcher_name = "docs";
      file_path = spell ("srv" ∷ []) "notes.txt";
      flushed = false;
      detected_at = 1000000000;
    })
    × (is_file_of "docs"
          (spell ("srv" ∷ []) "notes.txt")
          (new_row 7 "docs" false 1500000000 (spell ("srv" ∷ []) "notes.txt"))
        ≡ true)
read_row-new_row_example =
    read_row-new_row 7 "docs" false 1500000000 ("srv" ∷ []) "notes.txt" (srv, tt) notes

-- a dialer that reaches no machine
run-all_or_nothing_example :
    ((has_redirection "docs" db.redirections ≡ true)
      × Ends
          (run (db_job {R = ℕ} "docs" (λ cfg r. (err tt, r)) (λ msg r. r)) (db, 0))
          db
          (record db { files = map (flush_row "docs") db.files }))
    ⊎ ((has_redirection "docs" db.redirections ≡ false)
        × (run (db_job {R = ℕ} "docs" (λ cfg r. (err tt, r)) (λ msg r. r)) (db, 0)
            ≡ (ok true, (db, 0))))
run-all_or_nothing_example =
    run-all_or_nothing "docs" (λ cfg r. (err tt, r)) (λ msg r. r) db 0 db-IsConsistent

delete_machine-Forgotten_example :
    ((db' : Db) × (delete_machine db_machine_repository "nas" db ≡ (ok true, db'))
      × Forgotten "nas" db')
    ⊎ ((redirects_to "nas" (
            keep
              (λ r. not (has_watcher r.watcher_name (watchers_on "nas" db.watchers)))
              db.redirections)
          ≡ true)
        × (delete_machine db_machine_repository "nas" db ≡ (err internal, db)))
delete_machine-Forgotten_example = delete_machine-Forgotten "nas" db refl db-IsConsistent

-- a client that serves the same file everywhere
abbrev pub client : SftpClient ℕ
client = record {
  stat = λ path r. (ok (record { mode = 420; mod_time = 7 }), r);
  mkdir_all = λ path r. (ok tt, r);
  open_file = λ path r. (ok (record { read = λ s. (("text", true), s); close = λ s. s }), r);
  create = λ path r. (ok (record { write = λ t s. (ok tt, s + 1); close = λ s. s }), r);
  chmod = λ path mode r. (ok tt, r);
  chtimes = λ path atime mtime r. (ok tt, r);
  close = λ s. s;
}

abbrev pub dialer : SftpDialer ℕ
dialer cfg r = (ok client, r)

-- the database without its redirection
abbrev bare : Db
bare = record db { redirections = [] }

abbrev answer : RedirectionMessage
answer = record {
  watcher_name = "docs";
  target_path = "/backup";
  target_machine_name = "vault";
  created_at = 5000000000;
  updated_at = 5000000000;
}

abbrev redirected : Db
redirected = record db {
  redirections = record to_vault { created_at = 5000000000; updated_at = 5000000000 } ∷ [];
}

create_answers :
    create_file_redirection db_service "docs" "/backup" "vault" bare ≡ (ok answer, redirected)
unfolding create_file_redirection add_redirection get_machine_by_name
create_answers = refl

create_file_redirection-get_example : get_file_redirection db_service "docs" redirected ≡ (
  ok (record answer { created_at = rfc3339 5000000000; updated_at = rfc3339 5000000000 }),
  redirected,
)
create_file_redirection-get_example =
    create_file_redirection-get "docs" "/backup" "vault" bare redirected answer create_answers
