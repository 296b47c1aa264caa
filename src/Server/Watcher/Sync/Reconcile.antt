-- ===== src/Server/Watcher/Sync/Reconcile.antt =====
-- server/watcher/sync.go: the rows of the database before and after a sync.
use mathlib.Core.Path.{subst}
use tiny_file_watcher.Prelude.{
  All_mono, All-keep, ℕ, suc, eq_refl, ◌≡◌, refl, sym, ap, ◌∙◌, String, Bool, true, not, ◌&&◌, List,
  [], ◌∷◌, ◌++◌, map, ◌==◌, any, keep, All, All_of, All_of_any, All-append, any-append, any-keep,
  any_ext_on, any-guard, keep-append, arith, Bool-cases, inl, inr, eq_iff, string_comparable,
}
use tiny_file_watcher.Internal.Set
use tiny_file_watcher.Internal.Set.{Set, contains}
use tiny_file_watcher.Server.Database.{FileWatcher, WatchedRow, Db, next_id}
use tiny_file_watcher.Server.Database.Files.{insert_rows, is_file_of}
use tiny_file_watcher.Server.Watcher.Walk.{Visit, failed, dir, file, RemoteFs, Walk}
use tiny_file_watcher.Server.Watcher.Walk.Sets.{accepts}
use tiny_file_watcher.Server.Watcher.Sync.{removed_of, watched_set}
use tiny_file_watcher.Server.Watcher.Sync.Rows.{
  IsCanonical, row_path, RowCanonical, mine, tracks, listed, listed-path, contains-watched_set,
  removed_of-any, removed-IsCanonical, dropped-path, dropped_other, insert_rows-All,
  insert_rows-tracks,
}
use tiny_file_watcher.Server.Watcher.Sync.Updates.{with_added, without, job_on, append-[]}

-- the watcher's rows are those that the program itself writes
abbrev pub Canonical : String → List WatchedRow → Type 0
Canonical name fs = All (λ f. mine name f ≡ true → RowCanonical f) fs

abbrev pub ShowsCanonical : Visit → Type 0
ShowsCanonical (file path name) = IsCanonical path
ShowsCanonical (failed path) = Unit
ShowsCanonical (dir path) = Unit

-- the rows of a table after some were added and some removed
module _ (name : String) (removed : List String) where
  kept_row :
      (p : String) (f : WatchedRow)
      → All IsCanonical removed
      → (mine name f ≡ true → RowCanonical f)
      → not (any (λ r. is_file_of name r f) removed) && (mine name f && row_path f == p)
        ≡ not (any (λ r. r == p) removed) && (mine name f && row_path f == p)
  kept_row p f c h = elim (Bool-cases (mine name f && row_path f == p)) [
    | inl e ↦
        let m : mine name f ≡ true = ground arith in
        let q : row_path f ≡ p = (eq_iff (row_path f) p).0 (ground arith) in
        rw (dropped-path name removed f (h m) c m) (
          subst
            (λ z.
              not (any (λ r. r == z) removed) && (mine name f && row_path f == p)
              ≡ not (any (λ r. r == p) removed) && (mine name f && row_path f == p))
            (sym q) refl)
    | inr e ↦ rw e (ground arith)
  ]

  tracks-without :
      (p : String) (fs : List WatchedRow)
      → All IsCanonical removed
      → Canonical name fs
      → tracks name p (without name removed fs)
        ≡ not (any (λ r. r == p) removed) && tracks name p fs
  tracks-without p fs c h =
      any-keep _ _ fs
      ∙ any_ext_on _ _ _ fs (λ f g. kept_row p f c g) h
      ∙ any-guard (not (any (λ r. r == p) removed)) _ fs

-- nothing happens to the rows of another watcher
others-without :
    (name : String) (removed : List String) (fs : List WatchedRow)
    → keep (λ f. not (mine name f)) (without name removed fs) ≡ keep (λ f. not (mine name f)) fs
others-without name removed [] = refl
others-without name removed (f ∷ fs) = elim (Bool-cases (mine name f)) [
  | inl m ↦ elim (Bool-cases (any (λ r. is_file_of name r f) removed)) [
    | inl d ↦ rw (d, m) (others-without name removed fs)
    | inr d ↦ rw (d, m) (others-without name removed fs)
  ]
  | inr m ↦ rw (dropped_other name removed f m, m) (ap (◌∷◌ f) (others-without name removed fs))
]

others-insert_rows :
    (id : ℕ) (name : String) (flushed : Bool) (now : ℕ) (ps : List String)
    → keep (λ f. not (mine name f)) (insert_rows id name flushed now ps) ≡ []
unfolding insert_rows
others-insert_rows id name flushed now [] = refl
others-insert_rows id name flushed now (p ∷ ps) =
    rw (eq_refl name) (others-insert_rows (suc id) name flushed now ps)

-- what the walk of a sync shows of a path, the rules applied
module _ (compile : List String → String → Bool) (w : FileWatcher) (rfs : RemoteFs) where
  abbrev pub shows : String → Bool
  shows p = any (accepts (job_on compile w rfs []) p) (rfs.walk w.source_path)

  shown-IsCanonical :
      (p : String) (vs : List Visit)
      → All ShowsCanonical vs
      → any (accepts (job_on compile w rfs []) p) vs ≡ true
      → IsCanonical p
  shown-IsCanonical p [] c h = absurd (ground arith)
  shown-IsCanonical p (failed path ∷ vs) c h = shown-IsCanonical p vs c.1 h
  shown-IsCanonical p (dir path ∷ vs) c h = shown-IsCanonical p vs c.1 h
  shown-IsCanonical p (file path name ∷ vs) c h =
      elim (Bool-cases (accepts (job_on compile w rfs []) p (file path name))) [
        | inl e ↦ subst IsCanonical ((eq_iff path p).0 (ground arith)) c.0
        | inr e ↦ shown-IsCanonical p vs c.1 (ground arith)
      ]

  module _ (walked : Walk) (flush : Bool) (db : Db)
      (disk : (p : String) → contains walked.on_disk p ≡ shows p)
      (new : (p : String)
        → contains walked.added p
          ≡ shows p && not (contains (watched_set (listed w.name db.files)) p))
      (shown : All ShowsCanonical (rfs.walk w.source_path)) (rows : Canonical w.name db.files) where
    abbrev gone : List String
    gone = removed_of walked.on_disk (listed w.name db.files)

    pub added-any :
        (p : String)
        → any (λ key. key == p) (Set.items walked.added) ≡ shows p && not (tracks w.name p db.files)
    unfolding contains Set.items
    added-any p = ground (
      arith,
      new p,
      contains-watched_set (listed w.name db.files) p,
      listed-path w.name p db.files,
    )

    pub removed-any :
        (p : String) → any (λ r. r == p) gone ≡ tracks w.name p db.files && not (shows p)
    removed-any p = ground (
      arith,
      removed_of-any walked.on_disk (listed w.name db.files) p,
      disk p,
      listed-path w.name p db.files,
    )

    added-IsCanonical : All IsCanonical (Set.items walked.added)
    added-IsCanonical =
        All_of_any IsCanonical (Set.items walked.added)
          (λ p h. shown-IsCanonical p (rfs.walk w.source_path) shown (ground (arith, added-any p)))

    with_added-Canonical : Canonical w.name (with_added w.name walked.added flush db)
    with_added-Canonical = All-append _ db.files _ rows (
        All_mono _ _ _ (λ f h m. h.1)
          (insert_rows-All _ w.name flush db.clock (Set.items walked.added) (λ p. Unit {0})
            added-IsCanonical (All_of _ _ (λ p. tt))))

    pub tracked_after :
        (p : String)
        → tracks w.name p (without w.name gone (with_added w.name walked.added flush db)) ≡ shows p
    tracked_after p = ground (
      arith,
      tracks-without w.name gone p (with_added w.name walked.added flush db)
          (removed-IsCanonical walked.on_disk w.name db.files rows) with_added-Canonical,
      any-append (λ f. mine w.name f && row_path f == p) db.files
          (insert_rows (next_id (map (λ (f : WatchedRow). f.id) db.files)) w.name flush db.clock
            (Set.items walked.added)),
      insert_rows-tracks (next_id (map (λ (f : WatchedRow). f.id) db.files)) w.name flush db.clock
          (Set.items walked.added) p added-IsCanonical,
      added-any p,
      removed-any p,
    )

    pub others_after :
        keep
          (λ f. not (mine w.name f))
          (without w.name gone (with_added w.name walked.added flush db))
        ≡ keep (λ f. not (mine w.name f)) db.files
    others_after =
        others-without w.name gone (with_added w.name walked.added flush db)
        ∙ keep-append _ db.files _
        ∙ ap (λ fs. keep (λ f. not (mine w.name f)) db.files ++ fs)
            (others-insert_rows _ w.name flush db.clock (Set.items walked.added))
        ∙ append-[] _

    pub Canonical-after :
        Canonical w.name (without w.name gone (with_added w.name walked.added flush db))
    Canonical-after =
        All-keep _ _ _ (with_added w.name walked.added flush db) (λ f q c. c) with_added-Canonical
