-- ===== src/Server/Database/Machines.antt =====
-- server/database/machine_db.go
use Prim.Native.String.{compare}
use text.Mathlib.Text.{is_le}
use mathlib.Core.Option.{get_or}
use tiny_file_watcher.Prelude.{
  ℕ, String, Bool, true, false, not, ◌&&◌, Option, none, some, List, [], ◌∷◌, ◌++◌, map, ◌==◌, keep,
  first, if◌then◌else◌,
}
use tiny_file_watcher.Server.Outcome.{
  Exec, ok, err, DbError, no_rows, no_effect, unique_violation, foreign_key_violation,
}
use tiny_file_watcher.Server.Database.{
  Machine, FileWatcher, Db, rfc3339, next_id, has_machine, has_watcher, redirects_to,
}

unfoldable pub get_machine_by_name : String → Exec DbError Db Machine
get_machine_by_name name db = elim (first (λ m. m.name == name) db.machines) [
  | none ↦ (err no_rows, db)
  | some m ↦ (ok m, db)
]

-- the row that is inserted
abbrev pub new_machine : String → String → ℕ → String → String → Db → Machine
new_machine name ip ssh_port ssh_user key db = record {
  id = next_id (map (λ m. m.id) db.machines);
  name = name;
  ip = ip;
  ssh_port = ssh_port;
  ssh_user = ssh_user;
  ssh_private_key_path = key;
  created_at = rfc3339 db.clock;
  updated_at = rfc3339 db.clock;
}

unfoldable pub create_machine : String → String → ℕ → String → String → Exec DbError Db Machine
unfolding get_machine_by_name
create_machine name ip ssh_port ssh_user key db =
    if has_machine name db.machines
    then (err unique_violation, db)
    else get_machine_by_name name
        (record db { machines = db.machines ++ new_machine name ip ssh_port ssh_user key db ∷ [] })

unfoldable pub insert_by_name : Machine → List Machine → List Machine
insert_by_name m [] = m ∷ []
insert_by_name m (x ∷ xs) =
    if is_le (compare m.name x.name) then m ∷ x ∷ xs else x ∷ insert_by_name m xs

-- ORDER BY name
unfoldable pub order_by_name : List Machine → List Machine
order_by_name [] = []
order_by_name (m ∷ ms) = insert_by_name m (order_by_name ms)

unfoldable pub list_machines : Exec DbError Db (List Machine)
list_machines db = (ok (order_by_name db.machines), db)

-- the watchers that go with a machine
unfoldable pub watchers_on : String → List FileWatcher → List FileWatcher
watchers_on name = keep (λ w. w.machine_name == name)

-- the foreign keys that cascade: a machine's watchers, and with them their files and redirections
unfoldable pub cascade_machine : String → Db → Db
unfolding watchers_on
cascade_machine name db = record db {
  machines = keep (λ m. not (m.name == name)) db.machines;
  watchers = keep (λ w. not (w.machine_name == name)) db.watchers;
  files = keep (λ f. not (has_watcher f.watcher_name (watchers_on name db.watchers))) db.files;
  redirections =
      keep (λ r. not (has_watcher r.watcher_name (watchers_on name db.watchers))) db.redirections;
}

-- A redirection that is left over and copies to the machine stops the statement. A machine that is
-- not there is no error.
unfoldable pub delete_machine : String → Exec DbError Db (Unit {0})
unfolding cascade_machine
delete_machine name db =
    if not (has_machine name db.machines)
    then (ok tt, db)
    else if redirects_to name (cascade_machine name db).redirections
    then (err foreign_key_violation, db)
    else (ok tt, cascade_machine name db)

-- UPDATE machines SET … WHERE name=?, on one row
unfoldable pub assign_machine :
    String → Option String → Option ℕ → Option String → Option String → ℕ → Machine → Machine
assign_machine name ip ssh_port ssh_user key now m =
    if m.name == name
    then record m {
      ip = get_or ip m.ip;
      ssh_port = get_or ssh_port m.ssh_port;
      ssh_user = get_or ssh_user m.ssh_user;
      ssh_private_key_path = get_or key m.ssh_private_key_path;
      updated_at = rfc3339 now;
    }
    else m

abbrev is_none {ℓ} : {A : Type ℓ} → Option A → Bool
is_none none = true
is_none (some a) = false

unfoldable pub write_machine :
    String → Option String → Option ℕ → Option String → Option String → Db → Db
unfolding assign_machine
write_machine name ip ssh_port ssh_user key db = record db {
  machines = map (assign_machine name ip ssh_port ssh_user key db.clock) db.machines;
}

-- no argument at all reads the machine
unfoldable pub update_machine :
    String → Option String → Option ℕ → Option String → Option String → Exec DbError Db Machine
unfolding get_machine_by_name write_machine
update_machine name ip ssh_port ssh_user key db =
    if is_none ip && is_none ssh_port && is_none ssh_user && is_none key
    then get_machine_by_name name db
    else if has_machine name db.machines
    then get_machine_by_name name (write_machine name ip ssh_port ssh_user key db)
    else (err no_effect, db)
