-- ===== src/Server/Flush/Success.antt =====
-- server/flush/flush.go: FlushJob.Run over the database of server/database.
use tiny_file_watcher.Prelude.{
  map-map, ◌≡◌, refl, sym, ap, ◌∙◌, String, Bool, true, false, List, [], ◌∷◌, map, ◌⊎◌, inl, inr,
}
use tiny_file_watcher.Server.Outcome.{Result, ok, err, outcome-cases}
use tiny_file_watcher.Server.Database.{Db, has_redirection}
use tiny_file_watcher.Server.Database.Files.{PendingFlush, flush_watched_files}
use tiny_file_watcher.Server.Database.Repositories.{db_flush_repository}
use tiny_file_watcher.Server.Database.Integrity.{IsConsistent}
use tiny_file_watcher.Server.Database.Pending.{pending_row, unflushed, list_pending_flushes_lem}
use tiny_file_watcher.Server.Database.Flushing.{flush_row, flush_unflushed}
use tiny_file_watcher.Server.Flush.Transfer.{SftpDialer, Pool}
use tiny_file_watcher.Server.Flush.Job.{
  FlushJob, FlushError, transfer_pending_file, transfer_all, flush_pending, run,
}

abbrev pub db_job : {R : Type 0} → String → SftpDialer R → (String → R → R) → FlushJob Db R
db_job name dialer on_log = record {
  watcher_name = name;
  flush_repository = db_flush_repository;
  dialer = dialer;
  on_log = on_log;
}

module _ {D R : Type 0} (j : FlushJob D R) where
  -- the ids that are collected are those of the files that were transferred
  transfer_all-ids :
      (pfs : List PendingFlush) (p : Pool R)
      → ((p' : Pool R) × (transfer_all j pfs p
            ≡ (ok (map (λ (f : PendingFlush). f.watched_file_id) pfs), p')))
        ⊎ ((e : FlushError) × (p' : Pool R) × (transfer_all j pfs p ≡ (err e, p')))
  unfolding transfer_all
  transfer_all-ids [] p = inl (p, refl)
  transfer_all-ids (pf ∷ pfs) p = elim (outcome-cases (transfer_pending_file j pf p)) [
    | inl h ↦ elim (transfer_all-ids pfs h.1) [
      | inl g ↦ inl (g.0, rw h.2 (rw g.1 refl))
      | inr g ↦ inr (g.0, g.1, rw h.2 (rw g.2 refl))
    ]
    | inr h ↦ inr (h.0, h.1, rw h.2 refl)
  ]

flush_nothing : (db : Db) → flush_watched_files [] db ≡ (ok tt, db)
unfolding flush_watched_files
flush_nothing db = refl

-- the ends of a job: all is marked, or nothing is changed
abbrev pub Ends : {R : Type 0} → Result FlushError Bool × (Db × R) → Db → Db → Type 0
Ends (result, (after, r)) db marked =
    ((result ≡ ok true) × (after ≡ marked)) ⊎ ((e : FlushError) × (result ≡ err e) × (after ≡ db))

module _ {R : Type 0} (name : String) (dialer : SftpDialer R) (on_log : String → R → R) where
  flush_pending-marks :
      (pfs : List PendingFlush) (db marked : Db) (r : R)
      → flush_watched_files (map (λ (f : PendingFlush). f.watched_file_id) pfs) db ≡ (ok tt, marked)
      → Ends (flush_pending (db_job name dialer on_log) pfs (db, r)) db marked
  flush_pending-marks [] db marked r h = inl (refl, ap (λ s. s.1) (sym (flush_nothing db) ∙ h))
  flush_pending-marks (pf ∷ pfs) db marked r h =
      elim (transfer_all-ids (db_job name dialer on_log) (pf ∷ pfs)
        (record { clients = []; remote = on_log "found pending flushes" r })) [
          | inl g ↦ inl (rw (g.1, h) refl, rw (g.1, h) refl)
          | inr g ↦ inr (g.0, rw g.2 refl, rw g.2 refl)
        ]

  -- In a consistent database a flush job over any machines ends, and in one of two ways. It returns
  -- true, and then the watcher's files, if it has a redirection, are all flushed and all other rows
  -- are as before. Or it returns an error and nothing in the database is changed. In particular it
  -- never returns false without an error, and a watcher without a redirection is never changed.
  pub run-all_or_nothing :
      (db : Db) (r : R)
      → IsConsistent db
      → ((has_redirection name db.redirections ≡ true)
          × Ends
              (run (db_job name dialer on_log) (db, r))
              db
              (record db { files = map (flush_row name) db.files }))
        ⊎ ((has_redirection name db.redirections ≡ false)
            × (run (db_job name dialer on_log) (db, r)
                ≡ (ok true, (db, on_log "no pending flushes" r))))
  unfolding run
  run-all_or_nothing db r c = elim (list_pending_flushes_lem name db c) [
    | inl (h, fr, fw, m, tm, a, b, e, f, listed) ↦ inl (
      h,
      rw listed (
          flush_pending-marks (map (pending_row fr m tm) (unflushed name db.files)) db _ r (
            ap (λ ids. flush_watched_files ids db) (map-map _ _ (unflushed name db.files))
            ∙ flush_unflushed name db c)),
    )
    | inr (h, listed) ↦ inr (h, rw listed refl)
  ]
