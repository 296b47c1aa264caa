-- ===== src/Server/Watcher/Sync/Rows.antt =====
-- server/watcher/sync.go and server/database/file_db.go: which rows a sync removes and adds.
use mathlib.Core.Path.{subst, ap₂}
use tiny_file_watcher.Prelude.{
  ℕ, suc, ◌≡◌, refl, sym, ap, ◌∙◌, String, Bool, true, false, not, ◌&&◌, ◌||◌, List, [], ◌∷◌, map,
  ◌==◌, any, keep, All, All-keep, All-map, any_ext, any_ext_on, any-keep, any-map, any-guard,
  eq_iff, eq_refl, Bool_ext, length, arith, Bool-cases, inl, inr, string_comparable,
}
use tiny_file_watcher.Internal.FilePath.{join, dir, base}
use tiny_file_watcher.Internal.Set.{Set, contains, add, new_set_with_size}
use tiny_file_watcher.Internal.Set.Laws.{contains-add}
use tiny_file_watcher.Server.Database.{WatchedRow, WatchedFile}
use tiny_file_watcher.Server.Database.Files.{insert_rows, is_file_of, read_row}
use tiny_file_watcher.Server.Watcher.Sync.{add_paths, watched_set, removed_of}

-- a path that is put together again from its directory and its last element
abbrev pub IsCanonical : String → Type 0
IsCanonical p = join (dir p) (base p) ≡ p

-- the path that a row stands for
abbrev pub row_path : WatchedRow → String
row_path f = join f.file_path f.file_name

-- a row that is taken apart again from that path
abbrev pub RowCanonical : WatchedRow → Type 0
RowCanonical f = (dir (row_path f) ≡ f.file_path) × (base (row_path f) ≡ f.file_name)

pub RowCanonical-path : (f : WatchedRow) → RowCanonical f → IsCanonical (row_path f)
RowCanonical-path f c = rw (c.0, c.1)

abbrev pub mine : String → WatchedRow → Bool
mine name f = f.watcher_name == name

-- the watcher has a row for the path
abbrev pub tracks : String → String → List WatchedRow → Bool
tracks name p fs = any (λ f. mine name f && row_path f == p) fs

abbrev pub listed : String → List WatchedRow → List WatchedFile
listed name fs = map read_row (keep (mine name) fs)

pub listed-path :
    (name p : String) (fs : List WatchedRow)
    → any (λ (f : WatchedFile). f.file_path == p) (listed name fs) ≡ tracks name p fs
listed-path name p fs = any-map _ read_row (keep (mine name) fs) ∙ any-keep _ (mine name) fs

contains-add_paths :
    (s : Set String) (fs : List WatchedFile) (p : String)
    → contains (add_paths s fs) p ≡ any (λ (f : WatchedFile). f.file_path == p) fs || contains s p
unfolding add_paths
contains-add_paths s [] p = refl
contains-add_paths s (f ∷ fs) p =
    ground (arith, contains-add_paths (add s f.file_path) fs p, contains-add s f.file_path p)

contains-new_sized : (n : ℕ) (p : String) → contains (new_set_with_size n) p ≡ false
unfolding contains new_set_with_size
contains-new_sized n p = refl

pub contains-watched_set :
    (fs : List WatchedFile) (p : String)
    → contains (watched_set fs) p ≡ any (λ (f : WatchedFile). f.file_path == p) fs
unfolding watched_set
contains-watched_set fs p = ground (
  arith,
  contains-add_paths (new_set_with_size (length fs)) fs p,
  contains-new_sized (length fs) p,
)

same_test :
    (on_disk : Set String) (p r : String)
    → not (contains on_disk r) && r == p ≡ not (contains on_disk p) && r == p
same_test on_disk p r = elim (Bool-cases (r == p)) [
  | inl e ↦ rw ((eq_iff r p).0 e)
  | inr e ↦ ground arith
]

pub removed_of-any :
    (on_disk : Set String) (fs : List WatchedFile) (p : String)
    → any (λ r. r == p) (removed_of on_disk fs)
      ≡ not (contains on_disk p) && any (λ (f : WatchedFile). f.file_path == p) fs
unfolding removed_of
removed_of-any on_disk fs p =
    let paths = map (λ (f : WatchedFile). f.file_path) fs in
    any-keep (λ r. r == p) (λ r. not (contains on_disk r)) paths
    ∙ any_ext _ _ paths (same_test on_disk p)
    ∙ any-guard (not (contains on_disk p)) (λ r. r == p) paths
    ∙ ap (λ b. not (contains on_disk p) && b) (any-map _ _ fs)

-- the removed paths are those of canonical rows
pub removed-IsCanonical :
    (on_disk : Set String) (name : String) (fs : List WatchedRow)
    → All (λ f. mine name f ≡ true → RowCanonical f) fs
    → All IsCanonical (removed_of on_disk (listed name fs))
unfolding removed_of
removed-IsCanonical on_disk name fs h =
    All-keep _ _ _ _ (λ p _ c. c)
      (All-map IsCanonical _ _
        (All-map _ read_row _ (All-keep _ _ (mine name) fs (λ f m c. RowCanonical-path f (c m)) h)))

-- deleting by directory and name is deleting by path
pub is_file_of-path :
    (name p : String) (f : WatchedRow)
    → RowCanonical f
    → IsCanonical p
    → mine name f ≡ true
    → is_file_of name p f ≡ (p == row_path f)
is_file_of-path name p f c q m =
    Bool_ext _ _
      (λ h.
        let d : f.file_path ≡ dir p = (eq_iff f.file_path (dir p)).0 (ground arith) in
        let b : f.file_name ≡ base p = (eq_iff f.file_name (base p)).0 (ground arith) in
        (eq_iff p (row_path f)).1 (sym q ∙ ap₂ join (sym d) (sym b)))
      (λ h.
        let e : p ≡ row_path f = (eq_iff p (row_path f)).0 h in
        ground (
          arith,
          (eq_iff f.file_path (dir p)).1 (sym (ap dir e ∙ c.0)),
          (eq_iff f.file_name (base p)).1 (sym (ap base e ∙ c.1)),
        ))

-- the DELETE of a sync drops a row of the watcher exactly if its path is among those removed
pub dropped-path :
    (name : String) (removed : List String) (f : WatchedRow)
    → RowCanonical f
    → All IsCanonical removed
    → mine name f ≡ true
    → any (λ r. is_file_of name r f) removed ≡ any (λ r. r == row_path f) removed
dropped-path name removed f c h m =
    any_ext_on IsCanonical _ _ removed (λ r q. is_file_of-path name r f c q m) h

pub dropped_other :
    (name : String) (removed : List String) (f : WatchedRow)
    → mine name f ≡ false
    → any (λ r. is_file_of name r f) removed ≡ false
dropped_other name [] f m = refl
dropped_other name (r ∷ rs) f m = ground (arith, dropped_other name rs f m)

-- the rows of an INSERT are those of their paths
pub insert_rows-All :
    (id : ℕ) (name : String) (flushed : Bool) (now : ℕ) (ps : List String) (P : String → Type 0)
    → All IsCanonical ps
    → All P ps
    → All
        (λ f. (mine name f ≡ true) × RowCanonical f × P (row_path f))
        (insert_rows id name flushed now ps)
unfolding insert_rows
insert_rows-All id name flushed now [] P c h = tt
insert_rows-All id name flushed now (p ∷ ps) P c h = (
  (eq_refl name, (ap dir c.0, ap base c.0), subst P (sym c.0) h.0),
  insert_rows-All (suc id) name flushed now ps P c.1 h.1,
)

pub insert_rows-tracks :
    (id : ℕ) (name : String) (flushed : Bool) (now : ℕ) (ps : List String) (p : String)
    → All IsCanonical ps
    → tracks name p (insert_rows id name flushed now ps) ≡ any (λ key. key == p) ps
unfolding insert_rows
insert_rows-tracks id name flushed now [] p c = refl
insert_rows-tracks id name flushed now (q ∷ ps) p c = ground (
  arith,
  eq_refl name,
  ap (λ r. r == p) c.0,
  insert_rows-tracks (suc id) name flushed now ps p c.1,
)
