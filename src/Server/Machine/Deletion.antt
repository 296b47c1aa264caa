-- ===== src/Server/Machine/Deletion.antt =====
-- server/machine/service.go: DeleteMachine over the database.
use tiny_file_watcher.Prelude.{
  ◌≡◌, refl, ap, String, Bool, true, false, not, List, [], ◌∷◌, ◌==◌, ◌⊎◌, inl, inr, any, keep,
  All_mono, Bool-cases, any-false_of_All, eq_iff, arith, string_comparable,
}
use tiny_file_watcher.Server.Outcome.{ok, err, internal}
use tiny_file_watcher.Server.Database.{
  Machine, FileWatcher, Db, has_machine, has_watcher, redirects_to,
}
use tiny_file_watcher.Server.Database.Machines.{cascade_machine, watchers_on}
use tiny_file_watcher.Server.Database.Machines
use tiny_file_watcher.Server.Database.Repositories.{db_machine_repository}
use tiny_file_watcher.Server.Database.Integrity.{IsConsistent}
use tiny_file_watcher.Server.Machine.{delete_machine}

-- nothing in the database names the machine
abbrev pub Forgotten : String → Db → Type 0
Forgotten name db =
    (has_machine name db.machines ≡ false)
    × (any (λ (w : FileWatcher). w.machine_name == name) db.watchers ≡ false)
    × (redirects_to name db.redirections ≡ false)

dropped : {A : Type 0} (p : A → Bool) (xs : List A) → any p (keep (λ x. not (p x)) xs) ≡ false
dropped p [] = refl
dropped p (x ∷ xs) = ground (arith, dropped p xs)

-- a key that no row of the other table has
unreferenced :
    (name key : String) (ms : List Machine)
    → has_machine name ms ≡ false
    → has_machine key ms ≡ true
    → (key == name) ≡ false
unreferenced name key ms h k = elim (Bool-cases (key == name)) [
  | inl e ↦ absurd (ground (arith, ap (λ z. has_machine z ms) ((eq_iff key name).0 e)))
  | inr e ↦ e
]

-- DeleteMachine of a name that is not empty, over a consistent database: either it reports success,
-- and then no machine has that name, no watcher is on it and no redirection copies to it, also if
-- there was no such machine; or a watcher of another machine has a redirection that copies to it,
-- and then it answers Internal and changes nothing.
pub delete_machine-Forgotten :
    (name : String) (db : Db)
    → (name == "") ≡ false
    → IsConsistent db
    → ((db' : Db) × (delete_machine db_machine_repository name db ≡ (ok true, db'))
        × Forgotten name db')
      ⊎ ((redirects_to name (
              keep
                (λ r. not (has_watcher r.watcher_name (watchers_on name db.watchers)))
                db.redirections)
            ≡ true)
          × (delete_machine db_machine_repository name db ≡ (err internal, db)))
unfolding delete_machine Machines.delete_machine cascade_machine
delete_machine-Forgotten name db n c = elim (Bool-cases (has_machine name db.machines)) [
  | inl a ↦ elim (Bool-cases (redirects_to name (cascade_machine name db).redirections)) [
    | inl b ↦ inr (b, rw n (rw (a, b) refl))
    | inr b ↦ inl (
      cascade_machine name db,
      rw n (rw (a, b) refl),
      (
        dropped (λ (m : Machine). m.name == name) db.machines,
        dropped (λ (w : FileWatcher). w.machine_name == name) db.watchers,
        b,
      ),
    )
  ]
  | inr a ↦ inl (
    db,
    rw n (rw a refl),
    (
      a,
      any-false_of_All _ db.watchers (
          All_mono _ _ db.watchers (λ w h. unreferenced name w.machine_name db.machines a h)
            c.on_machine),
      any-false_of_All _ db.redirections (
          All_mono _ _ db.redirections
            (λ r h. unreferenced name r.target_machine_name db.machines a h.1) c.redirects),
    ),
  )
]
