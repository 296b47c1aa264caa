-- ===== src/Server/Database/Integrity/Watchers.antt =====
-- server/database/file_watcher_db.go: the calls on watchers and the constraints of schema.sql.
use mathlib.Core.Option.{get_or}
use tiny_file_watcher.Prelude.{
  ℕ, ◌+◌, ◌<◌, ◌≡◌, refl, sym, ◌∙◌, String, true, false, not, ◌&&◌, ◌||◌, Option, some, List, [],
  ◌∷◌, ◌++◌, any, keep, first, All, All_of, All-append, All_mono, All-keep, All_zip, All-any-false,
  any-append, any-keep-true, any-map, string_comparable, nat_comparable, keep_rows-Distinct,
  snoc_row-Distinct, arith, ◌==◌, eq_iff, nat_eq, Bool-cases, Option-cases, ◌⊎◌, inl, inr,
}
use tiny_file_watcher.Server.Database.{
  FileWatcher, WatchedRow, FileRedirection, Db, has_machine, has_watcher, has_files,
  has_redirection, next_id, largest,
}
use tiny_file_watcher.Server.Database.Watchers.{
  is_none, name_taken, write_watcher, get_watcher_by_id, create_watcher, update_watcher, update_row,
  delete_watcher,
}
use tiny_file_watcher.Server.Database.Integrity.{IsConsistent}
use tiny_file_watcher.Server.Database.Integrity.Renaming.{
  Named-first, has_watcher-write, ids-write, names-write, machines-write,
}

-- the next id is new
pub le-largest : (n : ℕ) (xs : List ℕ) → largest xs < n → any (λ x. nat_eq x n) xs ≡ false
unfolding largest
le-largest n [] h = refl
le-largest n (x ∷ xs) h = ground (arith, le-largest n xs (omega arith))

pub next_id_new : (ids : List ℕ) → any (λ x. nat_eq x (next_id ids)) ids ≡ false
unfolding next_id
next_id_new ids = le-largest (largest ids + 1) ids (omega arith)

has_watcher-snoc :
    (k : String) (ws : List FileWatcher) (w : FileWatcher)
    → has_watcher k ws ≡ true
    → has_watcher k (ws ++ w ∷ []) ≡ true
has_watcher-snoc k ws w h = ground (arith, any-append (λ x. x.name == k) ws (w ∷ []))

pub create_watcher-IsConsistent :
    (name source_path machine_name : String) (db : Db)
    → IsConsistent db
    → IsConsistent (create_watcher name source_path machine_name db).1
unfolding create_watcher
create_watcher-IsConsistent name source_path machine_name db c =
    elim (Bool-cases (has_watcher name db.watchers)) [
      | inl e ↦ rw e c
      | inr e ↦ elim (Bool-cases (has_machine machine_name db.machines)) [
        | inr m ↦ rw (e, m) c
        | inl m ↦
            rw (e, m)
              (record {
                machine_names = c.machine_names;
                watcher_names = snoc_row-Distinct _ db.watchers _ c.watcher_names e;
                watcher_ids =
                    snoc_row-Distinct _ db.watchers _ c.watcher_ids
                      (sym (any-map _ (λ (w : FileWatcher). w.id) db.watchers) ∙ next_id_new _);
                file_ids = c.file_ids;
                redirection_names = c.redirection_names;
                on_machine = All-append _ db.watchers _ c.on_machine (m, tt);
                of_watcher =
                    All_mono _ _ db.files (λ f. has_watcher-snoc f.watcher_name db.watchers _)
                      c.of_watcher;
                redirects =
                    All_mono _ _ db.redirections
                      (λ r h. (has_watcher-snoc r.watcher_name db.watchers _ h.0, h.1)) c.redirects;
              })
      ]
    ]

has_watcher-without :
    (k name : String) (ws : List FileWatcher)
    → (k == name) ≡ false
    → has_watcher k ws ≡ true
    → has_watcher k (keep (λ w. not (w.name == name)) ws) ≡ true
has_watcher-without k name ws ne h =
    any-keep-true (λ w. w.name == k) (λ w. not (w.name == name)) ws
      (λ w e. ground (arith, eq_iff w.name k, eq_iff w.name name, eq_iff k name)) h

pub delete_watcher-IsConsistent :
    (name : String) (db : Db) → IsConsistent db → IsConsistent (delete_watcher name db).1
unfolding delete_watcher
delete_watcher-IsConsistent name db c = elim (Bool-cases (has_watcher name db.watchers)) [
  | inr e ↦ rw e c
  | inl e ↦ rw e (record {
    machine_names = c.machine_names;
    watcher_names = keep_rows-Distinct _ _ db.watchers c.watcher_names;
    watcher_ids = keep_rows-Distinct _ _ db.watchers c.watcher_ids;
    file_ids = keep_rows-Distinct _ _ db.files c.file_ids;
    redirection_names = keep_rows-Distinct _ _ db.redirections c.redirection_names;
    on_machine = All-keep _ _ _ db.watchers (λ w _ h. h) c.on_machine;
    of_watcher =
        All-keep _ _ _ db.files
          (λ f off h. has_watcher-without f.watcher_name name db.watchers (ground arith) h)
          c.of_watcher;
    redirects =
        All-keep _ _ _ db.redirections
          (λ r off h. (has_watcher-without r.watcher_name name db.watchers (ground arith) h.0, h.1))
          c.redirects;
  })
]

-- what the foreign keys ask of a new name
abbrev Unreferred : String → Db → Type 0
Unreferred k db = (has_files k db.files ≡ false) × (has_redirection k db.redirections ≡ false)

write_watcher-IsConsistent :
    (id : ℕ) (name path : Option String) (w : FileWatcher) (db : Db)
    → IsConsistent db
    → first (λ v. nat_eq v.id id) db.watchers ≡ some w
    → name_taken id (get_or name w.name) db.watchers ≡ false
    → (get_or name w.name ≡ w.name) ⊎ Unreferred w.name db
    → IsConsistent (write_watcher id name path db)
unfolding write_watcher
write_watcher-IsConsistent id name path w db c e free u =
    let n = Named-first id w db.watchers c.watcher_ids e in
    record {
      machine_names = c.machine_names;
      watcher_names =
          names-write id name path db.clock w.name db.watchers c.watcher_names c.watcher_ids n free;
      watcher_ids = rw (ids-write id name path db.clock w.name db.watchers) c.watcher_ids;
      file_ids = c.file_ids;
      redirection_names = c.redirection_names;
      on_machine = machines-write id name path db.clock w.name db.machines db.watchers c.on_machine;
      of_watcher =
          All_zip _ _ _ db.files
            (λ f. has_watcher-write id name path db.clock w.name f.watcher_name db.watchers n)
            (spared (λ (f : WatchedRow). f.watcher_name) db.files (ground arith)) c.of_watcher;
      redirects =
          All_zip _ _ _ db.redirections
            (λ r o h. (
              has_watcher-write id name path db.clock w.name r.watcher_name db.watchers n o h.0,
              h.1,
            ))
            (spared (λ (r : FileRedirection). r.watcher_name) db.redirections (ground arith))
            c.redirects;
    }
  where
    -- no row refers to a name that is given up
    spared :
        {R : Type 0} (key : R → String) (rs : List R)
        → (get_or name w.name ≡ w.name) ⊎ (any (λ r. key r == w.name) rs ≡ false)
        → All (λ r. ((key r == w.name) ≡ false) ⊎ (get_or name w.name ≡ w.name)) rs
    spared key rs (inl same) = All_of _ rs (λ r. inr same)
    spared key rs (inr none_left) = All_mono _ _ rs (λ r h. inl h) (All-any-false _ rs none_left)

get_watcher_unchanged : (id : ℕ) (db : Db) → (get_watcher_by_id id db).1 ≡ db
unfolding get_watcher_by_id
get_watcher_unchanged id db = ground arith

update_row-IsConsistent :
    (id : ℕ) (name path : Option String) (w : FileWatcher) (db : Db)
    → IsConsistent db
    → first (λ v. nat_eq v.id id) db.watchers ≡ some w
    → IsConsistent (update_row id name path w db).1
unfolding update_row
update_row-IsConsistent id name path w db c e =
    elim (Bool-cases (name_taken id (get_or name w.name) db.watchers)) [
      | inl t ↦ rw t c
      | inr t ↦
          elim (Bool-cases (
            not (get_or name w.name == w.name)
            && (has_files w.name db.files || has_redirection w.name db.redirections))) [
              | inl r ↦ rw (t, r) c
              | inr r ↦
                  rw (t, r, get_watcher_unchanged)
                    (write_watcher-IsConsistent id name path w db c e t
                      (elim (Bool-cases (get_or name w.name == w.name)) [
                        | inl s ↦ inl ((eq_iff _ _).0 s)
                        | inr s ↦ inr (ground arith, ground arith)
                      ]))
            ]
    ]

pub update_watcher-IsConsistent :
    (id : ℕ) (name path : Option String) (db : Db)
    → IsConsistent db
    → IsConsistent (update_watcher id name path db).1
unfolding update_watcher
update_watcher-IsConsistent id name path db c = elim (Bool-cases (is_none name && is_none path)) [
  | inl b ↦ rw (b, get_watcher_unchanged) c
  | inr b ↦ elim (Option-cases (first (λ v. nat_eq v.id id) db.watchers)) [
    | inl e ↦ rw (b, e) c
    | inr (w, e) ↦ rw (b, e) (update_row-IsConsistent id name path w db c e)
  ]
]
