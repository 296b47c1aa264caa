-- ===== src/Server/Database/Integrity/Machines.antt =====
-- server/database/machine_db.go: the calls on machines and the constraints of schema.sql.
use tiny_file_watcher.Prelude.{
  ℕ, ◌≡◌, sym, ◌∙◌, String, true, false, not, ◌&&◌, Option, List, [], ◌∷◌, ◌++◌, map, keep,
  All_mono, All-keep, All_zip, All-any-false, any-append, any-keep-true, any-keep_of, any-keep,
  any_ext, any-map, string_comparable, nat_comparable, keep_rows-Distinct, snoc_row-Distinct,
  map_update, arith, ◌==◌, eq_iff, Bool-cases, ◌⊎◌, inl, inr,
}
use tiny_file_watcher.Server.Database.{
  Machine, FileWatcher, Db, has_machine, has_watcher, redirects_to,
}
use tiny_file_watcher.Server.Database.Machines.{
  get_machine_by_name, create_machine, delete_machine, cascade_machine, watchers_on, assign_machine,
  update_machine, write_machine,
}
use tiny_file_watcher.Server.Database.Integrity.{IsConsistent}

pub get_machine_unchanged : (name : String) (db : Db) → (get_machine_by_name name db).1 ≡ db
unfolding get_machine_by_name
get_machine_unchanged name db = ground arith

has_machine-snoc :
    (k : String) (ms : List Machine) (m : Machine)
    → has_machine k ms ≡ true
    → has_machine k (ms ++ m ∷ []) ≡ true
has_machine-snoc k ms m h = ground (arith, any-append (λ x. x.name == k) ms (m ∷ []))

pub create_machine-IsConsistent :
    (name ip : String) (port : ℕ) (user key : String) (db : Db)
    → IsConsistent db
    → IsConsistent (create_machine name ip port user key db).1
unfolding create_machine
create_machine-IsConsistent name ip port user key db c =
    elim (Bool-cases (has_machine name db.machines)) [
      | inl e ↦ rw e c
      | inr e ↦
          rw (e, get_machine_unchanged)
            (record {
              machine_names = snoc_row-Distinct _ db.machines _ c.machine_names e;
              watcher_names = c.watcher_names;
              watcher_ids = c.watcher_ids;
              file_ids = c.file_ids;
              redirection_names = c.redirection_names;
              on_machine =
                  All_mono _ _ db.watchers (λ w. has_machine-snoc w.machine_name db.machines _)
                    c.on_machine;
              of_watcher = c.of_watcher;
              redirects =
                  All_mono _ _ db.redirections
                    (λ r h. (h.0, has_machine-snoc r.target_machine_name db.machines _ h.1))
                    c.redirects;
            })
    ]

has_machine-without :
    (k name : String) (ms : List Machine)
    → (k == name) ≡ false
    → has_machine k ms ≡ true
    → has_machine k (keep (λ m. not (m.name == name)) ms) ≡ true
has_machine-without k name ms ne h =
    any-keep-true (λ m. m.name == k) (λ m. not (m.name == name)) ms
      (λ m e. ground (arith, eq_iff m.name k, eq_iff m.name name, eq_iff k name)) h

-- a watcher that is not among those on the machine stays
has_watcher-off :
    (k name : String) (ws : List FileWatcher)
    → has_watcher k (watchers_on name ws) ≡ false
    → has_watcher k ws ≡ true
    → has_watcher k (keep (λ w. not (w.machine_name == name)) ws) ≡ true
unfolding watchers_on
has_watcher-off k name ws off h =
    any-keep_of (λ w. w.name == k) (λ w. not (w.machine_name == name)) ws h
      (any_ext _ (λ w. (w.machine_name == name) && (w.name == k)) ws (λ w. ground arith)
        ∙ sym (any-keep (λ w. w.name == k) (λ w. w.machine_name == name) ws)
        ∙ off)

cascade_machine-IsConsistent :
    (name : String) (db : Db)
    → redirects_to name (cascade_machine name db).redirections ≡ false
    → IsConsistent db
    → IsConsistent (cascade_machine name db)
unfolding cascade_machine
cascade_machine-IsConsistent name db free c = record {
  machine_names = keep_rows-Distinct _ _ db.machines c.machine_names;
  watcher_names = keep_rows-Distinct _ _ db.watchers c.watcher_names;
  watcher_ids = keep_rows-Distinct _ _ db.watchers c.watcher_ids;
  file_ids = keep_rows-Distinct _ _ db.files c.file_ids;
  redirection_names = keep_rows-Distinct _ _ db.redirections c.redirection_names;
  on_machine =
      All-keep _ _ _ db.watchers
        (λ w off h. has_machine-without w.machine_name name db.machines (ground arith) h)
        c.on_machine;
  of_watcher =
      All-keep _ _ _ db.files
        (λ f off h. has_watcher-off f.watcher_name name db.watchers (ground arith) h) c.of_watcher;
  redirects =
      All_zip _ _ _ _
        (λ r h ne. (h.0, has_machine-without r.target_machine_name name db.machines ne h.1))
        (All-keep _
          (λ r.
            (has_watcher r.watcher_name (keep (λ w. not (w.machine_name == name)) db.watchers)
              ≡ true)
            × (has_machine r.target_machine_name db.machines ≡ true))
          _ db.redirections
          (λ r off h. (has_watcher-off r.watcher_name name db.watchers (ground arith) h.0, h.1))
          c.redirects)
        (All-any-false (λ r. r.target_machine_name == name) _ free);
}

pub delete_machine-IsConsistent :
    (name : String) (db : Db) → IsConsistent db → IsConsistent (delete_machine name db).1
unfolding delete_machine
delete_machine-IsConsistent name db c = ground (arith, cascade_machine-IsConsistent name db)

-- an update that leaves the names alone
has_machine-map :
    (g : Machine → Machine) (k : String) (ms : List Machine)
    → ((m : Machine) → (g m).name ≡ m.name)
    → has_machine k ms ≡ true
    → has_machine k (map g ms) ≡ true
has_machine-map g k ms h e = any-map _ g ms ∙ any_ext _ _ ms (λ m. ground (arith, h m)) ∙ e

assign_machine-name :
    (name : String) (ip : Option String) (port : Option ℕ) (user key : Option String) (now : ℕ)
    (m : Machine)
    → (assign_machine name ip port user key now m).name ≡ m.name
unfolding assign_machine
assign_machine-name name ip port user key now m = ground arith

write_machine-IsConsistent :
    (name : String) (ip : Option String) (port : Option ℕ) (user key : Option String) (db : Db)
    → IsConsistent db
    → IsConsistent (write_machine name ip port user key db)
unfolding write_machine
write_machine-IsConsistent name ip port user key db c =
    let g = assign_machine name ip port user key db.clock in
    let h = assign_machine-name name ip port user key db.clock in
    record {
      machine_names = rw (map_update (λ (m : Machine). m.name) g db.machines h) c.machine_names;
      watcher_names = c.watcher_names;
      watcher_ids = c.watcher_ids;
      file_ids = c.file_ids;
      redirection_names = c.redirection_names;
      on_machine =
          All_mono _ _ db.watchers (λ w. has_machine-map g w.machine_name db.machines h)
            c.on_machine;
      of_watcher = c.of_watcher;
      redirects =
          All_mono _ _ db.redirections
            (λ r k. (k.0, has_machine-map g r.target_machine_name db.machines h k.1)) c.redirects;
    }

update_machine_db :
    (name : String) (ip : Option String) (port : Option ℕ) (user key : Option String) (db : Db)
    → let after = (update_machine name ip port user key db).1 in
      (after ≡ db) ⊎ (after ≡ write_machine name ip port user key db)
unfolding update_machine get_machine_by_name
update_machine_db name ip port user key db = ground arith

pub update_machine-IsConsistent :
    (name : String) (ip : Option String) (port : Option ℕ) (user key : Option String) (db : Db)
    → IsConsistent db
    → IsConsistent (update_machine name ip port user key db).1
update_machine-IsConsistent name ip port user key db c =
    elim (update_machine_db name ip port user key db) [
      | inl e ↦ rw e c
      | inr e ↦ rw e (write_machine-IsConsistent name ip port user key db c)
    ]
