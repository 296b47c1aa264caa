-- ===== src/Server/Database/Integrity/Files.antt =====
-- server/database/file_db.go: the calls on tracked files and the constraints of schema.sql.
use mathlib.Core.List.{append-nil, append_assoc}
use tiny_file_watcher.Prelude.{
  ℕ, suc, ◌<◌, ◌≡◌, sym, ◌∙◌, String, Bool, true, List, [], ◌∷◌, ◌++◌, map, keep, All, All-append,
  All-keep, any-map, Distinct, string_comparable, nat_comparable, keep_rows-Distinct,
  snoc_row-Distinct, map_update, arith, nat_eq, Bool-cases, inl, inr,
}
use tiny_file_watcher.Internal.Set
use tiny_file_watcher.Internal.Set.{Set}
use tiny_file_watcher.Server.Database.{WatchedRow, Db, has_watcher, next_id, largest}
use tiny_file_watcher.Server.Database.Files.{
  add_watched_file, bulk_add_watched_files, insert_rows, new_row, remove_watched_file,
  bulk_remove_watched_files, flush_watched_files, mark_flushed,
}
use tiny_file_watcher.Server.Database.Integrity.{IsConsistent}
use tiny_file_watcher.Server.Database.Integrity.Watchers.{le-largest, next_id_new}

abbrev ids_of : List WatchedRow → List ℕ
ids_of = map (λ (f : WatchedRow). f.id)

-- a change of the files alone
with_files :
    (db : Db) (fs : List WatchedRow)
    → IsConsistent db
    → Distinct (ids_of fs)
    → All (λ (f : WatchedRow). has_watcher f.watcher_name db.watchers ≡ true) fs
    → IsConsistent (record db { files = fs })
with_files db fs c d h = record {
  machine_names = c.machine_names;
  watcher_names = c.watcher_names;
  watcher_ids = c.watcher_ids;
  file_ids = d;
  redirection_names = c.redirection_names;
  on_machine = c.on_machine;
  of_watcher = h;
  redirects = c.redirects;
}

largest-snoc :
    (n : ℕ) (fs : List WatchedRow) (r : WatchedRow)
    → largest (ids_of fs) < n
    → r.id < n
    → largest (ids_of (fs ++ r ∷ [])) < n
unfolding largest
largest-snoc n [] r h k = omega arith
largest-snoc n (f ∷ fs) r h k = omega (arith, largest-snoc n fs r (omega arith) k)

-- rows numbered upwards from an id that is above those there
append-Distinct :
    (id : ℕ) (w : String) (flushed : Bool) (now : ℕ) (ps : List String) (fs : List WatchedRow)
    → Distinct (ids_of fs)
    → largest (ids_of fs) < id
    → Distinct (ids_of (fs ++ insert_rows id w flushed now ps))
unfolding insert_rows
append-Distinct id w flushed now [] fs d h = rw (append-nil fs) d
append-Distinct id w flushed now (p ∷ ps) fs d h =
    let r = new_row id w flushed now p in
    rw (← append_assoc fs (r ∷ []) (insert_rows (suc id) w flushed now ps)) (
      append-Distinct (suc id) w flushed now ps (fs ++ r ∷ [])
        (snoc_row-Distinct _ fs r d
          (sym (any-map _ (λ (f : WatchedRow). f.id) fs) ∙ le-largest id (ids_of fs) h))
        (largest-snoc (suc id) fs r (omega arith) (unfold new_row in omega arith)))

inserted :
    (id : ℕ) (w : String) (flushed : Bool) (now : ℕ) (ps : List String) (db : Db)
    → has_watcher w db.watchers ≡ true
    → All
        (λ (f : WatchedRow). has_watcher f.watcher_name db.watchers ≡ true)
        (insert_rows id w flushed now ps)
unfolding insert_rows
inserted id w flushed now [] db h = tt
inserted id w flushed now (p ∷ ps) db h = (h, inserted (suc id) w flushed now ps db h)

pub bulk_add-IsConsistent :
    (w : String) (files : Set String) (flushed : Bool) (db : Db)
    → IsConsistent db
    → IsConsistent (bulk_add_watched_files w files flushed db).1
unfolding bulk_add_watched_files next_id
bulk_add-IsConsistent w files flushed db c = elim (Bool-cases (nat_eq (Set.size files) 0)) [
  | inl z ↦ rw z c
  | inr z ↦ elim (Bool-cases (has_watcher w db.watchers)) [
    | inr h ↦ rw (z, h) c
    | inl h ↦
        rw (z, h)
          (with_files db _ c
            (append-Distinct _ w flushed db.clock (Set.items files) db.files c.file_ids
              (omega arith))
            (All-append _ db.files _ c.of_watcher
              (inserted _ w flushed db.clock (Set.items files) db h)))
  ]
]

pub add_watched_file-IsConsistent :
    (w path : String) (flushed : Bool) (db : Db)
    → IsConsistent db
    → IsConsistent (add_watched_file w path flushed db).1
unfolding add_watched_file
add_watched_file-IsConsistent w path flushed db c = elim (Bool-cases (has_watcher w db.watchers)) [
  | inr h ↦ rw h c
  | inl h ↦ rw h (
      with_files db _ c
        (snoc_row-Distinct _ db.files _ c.file_ids
          (sym (any-map _ (λ (f : WatchedRow). f.id) db.files) ∙ next_id_new _))
        (All-append _ db.files _ c.of_watcher (h, tt)))
]

kept-IsConsistent :
    (q : WatchedRow → Bool) (db : Db)
    → IsConsistent db
    → IsConsistent (record db { files = keep q db.files })
kept-IsConsistent q db c =
    with_files db _ c (keep_rows-Distinct _ q db.files c.file_ids)
      (All-keep _ _ q db.files (λ f _ h. h) c.of_watcher)

pub remove_watched_file-IsConsistent :
    (w path : String) (db : Db) → IsConsistent db → IsConsistent (remove_watched_file w path db).1
unfolding remove_watched_file
remove_watched_file-IsConsistent w path db c = kept-IsConsistent _ db c

pub bulk_remove-IsConsistent :
    (w : String) (paths : List String) (db : Db)
    → IsConsistent db
    → IsConsistent (bulk_remove_watched_files w paths db).1
unfolding bulk_remove_watched_files
bulk_remove-IsConsistent w [] db c = c
bulk_remove-IsConsistent w (p ∷ ps) db c = kept-IsConsistent _ db c

marked :
    (ids : List ℕ) (ok_name : String → Type 0) (fs : List WatchedRow)
    → All (λ (f : WatchedRow). ok_name f.watcher_name) fs
    → All (λ (f : WatchedRow). ok_name f.watcher_name) (map (mark_flushed ids) fs)
unfolding mark_flushed
marked ids P [] h = tt
marked ids P (f ∷ fs) h = (ground (arith, h.0), marked ids P fs h.1)

pub flush-IsConsistent :
    (ids : List ℕ) (db : Db) → IsConsistent db → IsConsistent (flush_watched_files ids db).1
unfolding flush_watched_files
flush-IsConsistent [] db c = c
flush-IsConsistent (i ∷ is) db c =
    with_files db _ c
      (rw
        (map_update (λ (f : WatchedRow). f.id) (mark_flushed (i ∷ is)) db.files
          (λ f. unfold mark_flushed in ground arith))
        c.file_ids)
      (marked (i ∷ is) (λ k. has_watcher k db.watchers ≡ true) db.files c.of_watcher)
