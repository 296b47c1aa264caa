-- ===== src/Server/Database/Lookup.antt =====
-- server/database: the outcomes of a lookup by name and of the creation of a watcher.
use tiny_file_watcher.Prelude.{
  ◌≡◌, refl, String, true, false, [], ◌∷◌, ◌++◌, ◌==◌, ◌⊎◌, inl, inr, Bool-cases, first, first-any,
  first-none, some,
}
use tiny_file_watcher.Server.Outcome.{ok, err, DbError, unique_violation, foreign_key_violation}
use tiny_file_watcher.Server.Database.{Machine, Db, has_machine, has_watcher, rfc3339}
use tiny_file_watcher.Server.Database.Machines.{get_machine_by_name}
use tiny_file_watcher.Server.Database.Watchers.{new_watcher, create_watcher}

pub get_machine_by_name_found :
    (name : String) (db : Db)
    → has_machine name db.machines ≡ true
    → (m : Machine) × (get_machine_by_name name db ≡ (ok m, db)) × ((m.name == name) ≡ true)
unfolding get_machine_by_name
get_machine_by_name_found name db h =
    let (m, e, q) = first-any (λ (m : Machine). m.name == name) db.machines h in
    (m, rw (e, get_machine_by_name) refl, q)

pub create_watcher-cases :
    (name path machine : String) (db : Db)
    → ((e : DbError) × (create_watcher name path machine db ≡ (err e, db)))
      ⊎ ((has_watcher name db.watchers ≡ false)
          × (has_machine machine db.machines ≡ true)
          × (create_watcher name path machine db ≡ (
            ok (new_watcher name path machine db.clock db),
            record db {
              watchers = db.watchers ++ new_watcher name path machine (rfc3339 db.clock) db ∷ [];
            },
          )))
unfolding create_watcher
create_watcher-cases name path machine db = elim (Bool-cases (has_watcher name db.watchers)) [
  | inl a ↦ inl (unique_violation, rw a refl)
  | inr a ↦ elim (Bool-cases (has_machine machine db.machines)) [
    | inl b ↦ inr (a, b, rw (a, b) refl)
    | inr b ↦ inl (foreign_key_violation, rw (a, b) refl)
  ]
]

pub has_machine_found :
    (name : String) (db : Db) (m : Machine)
    → first (λ (x : Machine). x.name == name) db.machines ≡ some m
    → has_machine name db.machines ≡ true
has_machine_found name db m h = elim (Bool-cases (has_machine name db.machines)) [
  | inl e ↦ e
  | inr e ↦ cc (h, first-none (λ (x : Machine). x.name == name) db.machines e)
]

pub create_watcher_ok :
    (name path machine : String) (db : Db)
    → has_watcher name db.watchers ≡ false
    → has_machine machine db.machines ≡ true
    → create_watcher name path machine db ≡ (
      ok (new_watcher name path machine db.clock db),
      record db {
        watchers = db.watchers ++ new_watcher name path machine (rfc3339 db.clock) db ∷ [];
      },
    )
unfolding create_watcher
create_watcher_ok name path machine db a b = rw (a, b) refl
