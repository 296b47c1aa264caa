-- ===== src/Server/Database/Flushing.antt =====
-- server/database/file_db.go: FlushWatchedFiles on the ids of unflushed rows.
use tiny_file_watcher.Prelude.{
  map_id, map_ext_on, All_zip, any_ext, ℕ, ◌≡◌, refl, sym, ap, ◌∙◌, String, Bool, true, false, not,
  ◌&&◌, List, [], ◌∷◌, map, ◌==◌, any, keep, All, Distinct, All-any-false, any-map, any-false-keep,
  arith, Bool-cases, inl, inr, nat_eq, string_comparable, nat_comparable, if◌then◌else◌,
}
use tiny_file_watcher.Server.Outcome.{ok}
use tiny_file_watcher.Server.Database.{WatchedRow, Db}
use tiny_file_watcher.Server.Database.Files.{mark_flushed, flush_watched_files}
use tiny_file_watcher.Server.Database.Integrity.{IsConsistent}
use tiny_file_watcher.Server.Database.Pending.{unflushed}

picked_head :
    (q : WatchedRow → Bool) (x : WatchedRow) (fs : List WatchedRow)
    → any (λ (f : WatchedRow). nat_eq f.id x.id) fs ≡ false
    → any (nat_eq x.id) (map (λ (f : WatchedRow). f.id) (keep q (x ∷ fs))) ≡ q x
picked_head q x fs h = elim (Bool-cases (q x)) [
  | inl e ↦ rw e (ground arith)
  | inr e ↦
      rw e
        (any-map _ _ (keep q fs) ∙ any-false-keep _ q fs (any_ext _ _ fs (λ f. ground arith) ∙ h))
]

picked_tail :
    (q : WatchedRow → Bool) (x : WatchedRow) (gs fs : List WatchedRow)
    → All (λ (f : WatchedRow). nat_eq f.id x.id ≡ false) fs
    → All (λ f. any (nat_eq f.id) (map (λ (f : WatchedRow). f.id) (keep q gs)) ≡ q f) fs
    → All (λ f. any (nat_eq f.id) (map (λ (f : WatchedRow). f.id) (keep q (x ∷ gs))) ≡ q f) fs
picked_tail q x gs fs d h =
    All_zip _ _ _ fs (λ f a b. elim (Bool-cases (q x)) [ inl e ↦ rw e (rw a b) | inr e ↦ rw e b ]) d
      h

-- among rows with distinct ids, the ids of some pick those
picked :
    (q : WatchedRow → Bool) (fs : List WatchedRow)
    → Distinct (map (λ (f : WatchedRow). f.id) fs)
    → All (λ f. any (nat_eq f.id) (map (λ (f : WatchedRow). f.id) (keep q fs)) ≡ q f) fs
picked q [] d = tt
picked q (x ∷ fs) d =
    let fresh : any (λ (f : WatchedRow). nat_eq f.id x.id) fs ≡ false =
      sym (any-map _ _ fs) ∙ d.0 in
    (picked_head q x fs fresh, picked_tail q x fs fs (All-any-false _ fs fresh) (picked q fs d.1))

-- what a flush does to a row
abbrev pub flush_row : String → WatchedRow → WatchedRow
flush_row name f = if f.watcher_name == name then record f { flushed = true } else f

pub flush_watched_files_lem :
    (ids : List ℕ) (db : Db)
    → flush_watched_files ids db ≡ (ok tt, record db { files = map (mark_flushed ids) db.files })
unfolding flush_watched_files mark_flushed
flush_watched_files_lem [] db = ap (λ fs. (ok tt, record db { files = fs })) (sym (map_id db.files))
flush_watched_files_lem (i ∷ is) db = refl

mark_flushed-picked :
    (name : String) (ids : List ℕ) (f : WatchedRow)
    → any (nat_eq f.id) ids ≡ (not f.flushed && f.watcher_name == name)
    → mark_flushed ids f ≡ flush_row name f
unfolding mark_flushed
mark_flushed-picked name ids f h = rw h (elim (Bool-cases f.flushed) [
  | inl e ↦ elim (Bool-cases (f.watcher_name == name)) [
    | inl m ↦ rw (e, m) refl
    | inr m ↦ rw (e, m) refl
  ]
  | inr e ↦ rw e refl
])

-- marking the ids of a watcher's unflushed rows flushes its rows, and no others
pub flush_unflushed :
    (name : String) (db : Db)
    → IsConsistent db
    → flush_watched_files (map (λ (f : WatchedRow). f.id) (unflushed name db.files)) db
      ≡ (ok tt, record db { files = map (flush_row name) db.files })
flush_unflushed name db c =
    let ids = map (λ (f : WatchedRow). f.id) (unflushed name db.files) in
    flush_watched_files_lem ids db
    ∙ ap (λ fs. (ok tt, record db { files = fs }))
        (map_ext_on _ _ _ db.files (λ f h. mark_flushed-picked name ids f h)
          (picked _ db.files c.file_ids))

-- and leaves nothing unflushed
pub unflushed-flush_row :
    (name : String) (fs : List WatchedRow) → unflushed name (map (flush_row name) fs) ≡ []
unflushed-flush_row name [] = refl
unflushed-flush_row name (f ∷ fs) = elim (Bool-cases (f.watcher_name == name)) [
  | inl m ↦ rw m (unflushed-flush_row name fs)
  | inr m ↦ rw m (ground (arith, unflushed-flush_row name fs))
]
