-- ===== src/Server/Database/Integrity/Redirections.antt =====
-- server/database/redirection_db.go: the calls on redirections and the constraints of schema.sql.
use tiny_file_watcher.Prelude.{
  ◌≡◌, String, true, Option, none, some, List, [], ◌∷◌, map, All, All-append, All-keep, Distinct,
  string_comparable, keep_rows-Distinct, snoc_row-Distinct, map_update, arith, ◌==◌, Bool-cases,
  inl, inr, ℕ,
}
use tiny_file_watcher.Server.Database.{
  FileRedirection, Db, has_machine, has_watcher, has_redirection,
}
use tiny_file_watcher.Server.Database.Redirections.{
  add_redirection, get_redirection, remove_redirection, update_redirection, redirect,
}
use tiny_file_watcher.Server.Database.Integrity.{IsConsistent}

-- a change of the redirections alone
with_redirections :
    (db : Db) (rs : List FileRedirection)
    → IsConsistent db
    → Distinct (map (λ (r : FileRedirection). r.watcher_name) rs)
    → All
        (λ (r : FileRedirection).
          (has_watcher r.watcher_name db.watchers ≡ true)
          × (has_machine r.target_machine_name db.machines ≡ true))
        rs
    → IsConsistent (record db { redirections = rs })
with_redirections db rs c d h = record {
  machine_names = c.machine_names;
  watcher_names = c.watcher_names;
  watcher_ids = c.watcher_ids;
  file_ids = c.file_ids;
  redirection_names = d;
  on_machine = c.on_machine;
  of_watcher = c.of_watcher;
  redirects = h;
}

pub add_redirection-IsConsistent :
    (watcher_name path machine : String) (db : Db)
    → IsConsistent db
    → IsConsistent (add_redirection watcher_name path machine db).1
unfolding add_redirection
add_redirection-IsConsistent watcher_name path machine db c =
    elim (Bool-cases (has_redirection watcher_name db.redirections)) [
      | inl e ↦ rw e c
      | inr e ↦ elim (Bool-cases (has_watcher watcher_name db.watchers)) [
        | inr w ↦ rw (e, w) c
        | inl w ↦ elim (Bool-cases (has_machine machine db.machines)) [
          | inr m ↦ rw (e, w, m) c
          | inl m ↦
              rw (e, w, m)
                (with_redirections db _ c
                  (snoc_row-Distinct _ db.redirections _ c.redirection_names e)
                  (All-append _ db.redirections _ c.redirects ((w, m), tt)))
        ]
      ]
    ]

pub remove_redirection-IsConsistent :
    (watcher_name : String) (db : Db)
    → IsConsistent db
    → IsConsistent (remove_redirection watcher_name db).1
unfolding remove_redirection
remove_redirection-IsConsistent watcher_name db c =
    elim (Bool-cases (has_redirection watcher_name db.redirections)) [
      | inr e ↦ rw e c
      | inl e ↦ rw e (
          with_redirections db _ c (keep_rows-Distinct _ _ db.redirections c.redirection_names)
            (All-keep _ _ _ db.redirections (λ r _ h. h) c.redirects))
    ]

get_redirection_unchanged : (name : String) (db : Db) → (get_redirection name db).1 ≡ db
unfolding get_redirection
get_redirection_unchanged name db = ground arith

redirected :
    (name path : String) (now : ℕ) (P : String → String → Type 0) (rs : List FileRedirection)
    → All (λ (r : FileRedirection). P r.watcher_name r.target_machine_name) rs
    → All
        (λ (r : FileRedirection). P r.watcher_name r.target_machine_name)
        (map (redirect name path now) rs)
unfolding redirect
redirected name path now P [] h = tt
redirected name path now P (r ∷ rs) h = elim (Bool-cases (r.watcher_name == name)) [
  | inl e ↦ rw e (h.0, redirected name path now P rs h.1)
  | inr e ↦ rw e (h.0, redirected name path now P rs h.1)
]

redirect-name :
    (name path : String) (now : ℕ) (r : FileRedirection)
    → (redirect name path now r).watcher_name ≡ r.watcher_name
unfolding redirect
redirect-name name path now r = ground arith

pub update_redirection-IsConsistent :
    (watcher_name : String) (path : Option String) (db : Db)
    → IsConsistent db
    → IsConsistent (update_redirection watcher_name path db).1
unfolding update_redirection
update_redirection-IsConsistent name none db c = rw get_redirection_unchanged c
update_redirection-IsConsistent name (some path) db c =
    elim (Bool-cases (has_redirection name db.redirections)) [
      | inr e ↦ rw e c
      | inl e ↦
          rw (e, get_redirection_unchanged)
            (with_redirections db _ c
              (rw
                (map_update (λ (r : FileRedirection). r.watcher_name) (redirect name path db.clock)
                  db.redirections (redirect-name name path db.clock))
                c.redirection_names)
              (redirected name path db.clock
                (λ w m. (has_watcher w db.watchers ≡ true) × (has_machine m db.machines ≡ true))
                db.redirections c.redirects))
    ]
