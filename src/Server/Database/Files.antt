-- ===== src/Server/Database/Files.antt =====
-- server/database/file_db.go and the view pending_file_flushes of schema.sql
use tiny_file_watcher.Prelude.{
  ℕ, suc, ◌+◌, ◌-◌, String, Bool, true, not, ◌&&◌, List, [], ◌∷◌, ◌++◌, map, ◌==◌, any, keep,
  length, nat_eq, if◌then◌else◌,
}
use tiny_file_watcher.Internal.FilePath.{join, dir, base}
use tiny_file_watcher.Internal.Set
use tiny_file_watcher.Internal.Set.{Set}
use tiny_file_watcher.Server.Outcome.{Exec, ok, err, DbError, foreign_key_violation}
use tiny_file_watcher.Server.Database.{
  Machine, WatchedRow, WatchedFile, Db, rfc3339, next_id, has_watcher,
}

unfoldable pub new_row : ℕ → String → Bool → ℕ → String → WatchedRow
new_row id watcher_name flushed now path = record {
  id = id;
  watcher_name = watcher_name;
  file_name = base path;
  file_path = dir path;
  detected_at = rfc3339 now;
  flushed = flushed;
}

abbrev file_ids : Db → List ℕ
file_ids db = map (λ f. f.id) db.files

-- The returned path is that of the parent directory.
unfoldable pub add_watched_file : String → String → Bool → Exec DbError Db WatchedFile
unfolding new_row
add_watched_file watcher_name file_path flushed db =
    if has_watcher watcher_name db.watchers
    then (
      ok (record {
        id = next_id (file_ids db);
        watcher_name = watcher_name;
        file_path = dir file_path;
        flushed = flushed;
        detected_at = db.clock;
      }),
      record db {
        files =
            db.files
            ++ new_row (next_id (file_ids db)) watcher_name flushed db.clock file_path ∷ [];
      },
    )
    else (err foreign_key_violation, db)

-- the rows of a multi-row INSERT, with the ids that follow one another from `id`
unfoldable pub insert_rows : ℕ → String → Bool → ℕ → List String → List WatchedRow
unfolding new_row
insert_rows id watcher_name flushed now [] = []
insert_rows id watcher_name flushed now (p ∷ ps) =
    new_row id watcher_name flushed now p ∷ insert_rows (suc id) watcher_name flushed now ps

-- what BulkAddWatchedFiles returns: ids counted from `first_id`
unfoldable pub inserted_files : ℕ → String → Bool → ℕ → List String → List WatchedFile
inserted_files id watcher_name flushed now [] = []
inserted_files id watcher_name flushed now (p ∷ ps) =
    record {
      id = id;
      watcher_name = watcher_name;
      file_path = join (dir p) (base p);
      flushed = flushed;
      detected_at = now;
    }
    ∷ inserted_files (suc id) watcher_name flushed now ps

unfoldable pub bulk_add_watched_files :
    String → Set String → Bool → Exec DbError Db (List WatchedFile)
unfolding insert_rows inserted_files Set.items Set.size
bulk_add_watched_files watcher_name files flushed db =
    if nat_eq (Set.size files) 0
    then (ok [], db)
    else if not (has_watcher watcher_name db.watchers)
    then (err foreign_key_violation, db)
    else (
      ok (inserted_files (last_id + 1 - length paths) watcher_name flushed db.clock paths),
      record db { files = db.files ++ rows },
    )
  where
    paths : List String
    paths = Set.items files

    rows : List WatchedRow
    rows = insert_rows (next_id (file_ids db)) watcher_name flushed db.clock paths

    -- LastInsertId
    last_id : ℕ
    last_id = next_id (file_ids db) + length paths - 1

-- WHERE watcher_name=? AND file_path=? AND file_name=?
abbrev pub is_file_of : String → String → WatchedRow → Bool
is_file_of watcher_name path f =
    f.watcher_name == watcher_name && (f.file_path == dir path && f.file_name == base path)

unfoldable pub remove_watched_file : String → String → Exec DbError Db (Unit {0})
remove_watched_file watcher_name path db =
    (ok tt, record db { files = keep (λ f. not (is_file_of watcher_name path f)) db.files })

unfoldable pub bulk_remove_watched_files : String → List String → Exec DbError Db (Unit {0})
bulk_remove_watched_files watcher_name [] db = (ok tt, db)
bulk_remove_watched_files watcher_name (p ∷ ps) db = (
  ok tt,
  record db {
    files = keep (λ f. not (any (λ path. is_file_of watcher_name path f) (p ∷ ps))) db.files;
  },
)

abbrev pub read_row : WatchedRow → WatchedFile
read_row f = record {
  id = f.id;
  watcher_name = f.watcher_name;
  file_path = join f.file_path f.file_name;
  flushed = f.flushed;
  detected_at = f.detected_at;
}

-- The query has no condition on `flushed`.
unfoldable pub list_watched_files : String → Exec DbError Db (List WatchedFile)
list_watched_files watcher_name db =
    (ok (map read_row (keep (λ f. f.watcher_name == watcher_name) db.files)), db)

-- UPDATE watched_files SET flushed=1 WHERE id IN (…), on one row
unfoldable pub mark_flushed : List ℕ → WatchedRow → WatchedRow
mark_flushed ids f = if any (nat_eq f.id) ids then record f { flushed = true } else f

unfoldable pub flush_watched_files : List ℕ → Exec DbError Db (Unit {0})
unfolding mark_flushed
flush_watched_files [] db = (ok tt, db)
flush_watched_files (i ∷ is) db =
    (ok tt, record db { files = map (mark_flushed (i ∷ is)) db.files })

-- a row of the view pending_file_flushes
pub record PendingFlush : Type 0 where
  pub watched_file_id : ℕ
  pub watcher_name : String
  pub file_path : String
  pub file_name : String
  pub target_path : String
  pub machine : Machine
  pub target_machine : Machine

abbrev pub collect {ℓ κ} : {A : Type ℓ} {B : Type κ} → (A → List B) → List A → List B
collect f [] = []
collect f (x ∷ xs) = f x ++ collect f xs

-- an INNER JOIN: the rows of `f` for each row that meets the condition
abbrev pub join_on {ℓ κ} : {A : Type ℓ} {B : Type κ} → (A → Bool) → List A → (A → List B) → List B
join_on test rows f = collect f (keep test rows)

unfoldable pub pending_of : Db → WatchedRow → List PendingFlush
pending_of db wf =
    join_on (λ fr. fr.watcher_name == wf.watcher_name) db.redirections
      λ fr.
        join_on (λ fw. fw.name == wf.watcher_name) db.watchers
          λ fw.
            join_on (λ m. m.name == fw.machine_name) db.machines
              λ m.
                join_on (λ tm. tm.name == fr.target_machine_name) db.machines
                  λ tm.
                    record {
                      watched_file_id = wf.id;
                      watcher_name = wf.watcher_name;
                      file_path = wf.file_path;
                      file_name = wf.file_name;
                      target_path = fr.target_path;
                      machine = m;
                      target_machine = tm;
                    }
                    ∷ []

unfoldable pub list_pending_flushes : String → Exec DbError Db (List PendingFlush)
unfolding pending_of
list_pending_flushes name db = (
  ok (collect (pending_of db) (keep (λ f. not f.flushed && f.watcher_name == name) db.files)),
  db,
)
