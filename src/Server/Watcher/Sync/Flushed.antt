-- ===== src/Server/Watcher/Sync/Flushed.antt =====
-- server/watcher/sync.go: the rows that a run with `flush` set leaves.
use tiny_file_watcher.Prelude.{
  ℕ, suc, ◌≡◌, refl, ap, ◌∙◌, String, Bool, true, false, not, ◌&&◌, List, [], ◌∷◌, All, All-append,
  All-keep, arith, string_comparable,
}
use tiny_file_watcher.Internal.Set
use tiny_file_watcher.Internal.Set.{Set}
use tiny_file_watcher.Internal.Set.Valid.{IsValid}
use tiny_file_watcher.Server.Database.{FileWatcher, WatchedRow, Db, has_watcher}
use tiny_file_watcher.Server.Database.Files.{insert_rows}
use tiny_file_watcher.Server.Database.Pending.{unflushed}
use tiny_file_watcher.Server.Watcher.Walk.{RemoteFs}
use tiny_file_watcher.Server.Watcher.Walk.Tree.{IsTree}
use tiny_file_watcher.Server.Watcher.Walk.Coverage.{
  handle_current_paths_lem, handle_current_paths-IsValid,
}
use tiny_file_watcher.Server.Watcher.Sync.{run}
use tiny_file_watcher.Server.Watcher.Sync.Rows.{mine}
use tiny_file_watcher.Server.Watcher.Sync.Updates.{db_job, with_added, job_on, run_lem}

-- no row waits to be flushed
abbrev pub Settled : String → List WatchedRow → Type 0
Settled name fs = All (λ f. not f.flushed && mine name f ≡ false) fs

pub unflushed-Settled :
    (name : String) (fs : List WatchedRow) → Settled name fs → unflushed name fs ≡ []
unflushed-Settled name [] h = refl
unflushed-Settled name (f ∷ fs) h = ground (arith, unflushed-Settled name fs h.1, h.0)

insert_rows-Settled :
    (id : ℕ) (name : String) (now : ℕ) (ps : List String)
    → Settled name (insert_rows id name true now ps)
unfolding insert_rows
insert_rows-Settled id name now [] = tt
insert_rows-Settled id name now (p ∷ ps) = (refl, insert_rows-Settled (suc id) name now ps)

pub run-Settled :
    (compile : List String → String → Bool) (w : FileWatcher) (rfs : RemoteFs) (db : Db)
    → IsTree rfs w.source_path
    → has_watcher w.name db.watchers ≡ true
    → Settled w.name db.files
    → unflushed w.name (run compile (db_job w rfs) true db).1.files ≡ []
run-Settled compile w rfs db t h rows =
    let (walked, e, disk, new) = handle_current_paths_lem (job_on compile w rfs db.files) t in
    let v : IsValid walked.added = handle_current_paths-IsValid _ walked e in
    ap (λ x. unflushed w.name x.1.files) (run_lem compile w rfs true db walked e v h)
    ∙ unflushed-Settled w.name _ (
        All-keep _ _ _ (with_added w.name walked.added true db) (λ f q c. c)
          (All-append _ db.files _ rows
            (insert_rows-Settled _ w.name db.clock (Set.items walked.added))))
