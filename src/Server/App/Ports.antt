-- ===== src/Server/App/Ports.antt =====
-- server/web/machine_handler.go: the port of a machine that the form of the web UI creates.
use tiny_file_watcher.Prelude.{
  ℕ, ◌%◌, ◌^◌, ◌<◌, ◌≡◌, refl, ap, String, Bool, true, false, ◌||◌, some, List, [], ◌∷◌, ◌++◌, ◌==◌,
  nat_eq, any, first, eq_refl, eq_iff, arith, if◌then◌else◌, Bool-cases, inl, inr,
}
use tiny_file_watcher.Internal.Strconv.{itoa, atoi}
use tiny_file_watcher.Internal.Strconv.RoundTrip.{atoi-itoa}
use tiny_file_watcher.Server.Outcome.{ok}
use tiny_file_watcher.Server.Database.{Machine, Db, has_machine}
use tiny_file_watcher.Server.Database.Machines.{new_machine, get_machine_by_name, create_machine}
use tiny_file_watcher.Server.Database.Repositories.{db_machine_repository}
use tiny_file_watcher.Server.Machine
use tiny_file_watcher.Server.Web.Http.{see_other}
use tiny_file_watcher.Server.Web.Machines.{ssh_port, handle_machine_create, port_or_default}
use tiny_file_watcher.Server.App.{World, Outside, services}

first-last :
    {A : Type 0} (p : A → Bool) (xs : List A) (x : A)
    → any p xs ≡ false
    → p x ≡ true
    → first p (xs ++ x ∷ []) ≡ some x
first-last p [] x h e = rw e refl
first-last p (y ∷ ys) x h e = ground (arith, first-last p ys x)

create_machine_ok :
    (name ip : String) (port : ℕ) (user key : String) (db : Db)
    → has_machine name db.machines ≡ false
    → create_machine name ip port user key db ≡ (
      ok (new_machine name ip port user key db),
      record db { machines = db.machines ++ new_machine name ip port user key db ∷ [] },
    )
unfolding create_machine
create_machine_ok name ip port user key db h = rw h (
    rw
      (
        first-last (λ (m : Machine). m.name == name) db.machines
            (new_machine name ip port user key db) h (eq_refl name),
        get_machine_by_name,
      )
      refl)

ssh_port-itoa : (n : ℕ) → n < 2 ^ 63 → ssh_port (itoa n) ≡ n % 2 ^ 32
unfolding ssh_port atoi
ssh_port-itoa n h = elim (Bool-cases (itoa n == "")) [
  | inl e ↦ cc (atoi-itoa n h, (eq_iff (itoa n) "").0 e)
  | inr e ↦ rw e (ap port_or_default (atoi-itoa n h))
]

-- the port that is stored for a port that is asked for
abbrev pub stored_port : ℕ → ℕ
stored_port p = if nat_eq p 0 then 22 else p

service_create :
    (name ip : String) (port : ℕ) (user key : String) (db : Db)
    → (name == "") ≡ false
    → (ip == "") ≡ false
    → (user == "") ≡ false
    → (key == "") ≡ false
    → has_machine name db.machines ≡ false
    → Machine.create_machine db_machine_repository name ip port user key db ≡ (
      ok (Machine.to_proto (new_machine name ip (stored_port port) user key db)),
      record db {
        machines = db.machines ++ new_machine name ip (stored_port port) user key db ∷ [];
      },
    )
unfolding Machine.create_machine
service_create name ip port user key db a b c d free =
    rw (a, b) (rw (c, d) (rw (create_machine_ok name ip (stored_port port) user key db free) refl))

module _ {R : Type 0} (o : Outside R) (w : World R) (value : String → String) (n : ℕ) where
  -- The form of the web UI with its four texts filled in, a name that no machine has, and as port
  -- the decimal text of any number that fits an int64: the machine is created with that number
  -- modulo 2 ^ 32 as its port, or 22 if that is 0, with the other values as they are, nothing else
  -- changes, and the browser is sent to "/machines".
  pub handle_machine_create_lem :
      ((value "name" == "" || value "ip" == "" || value "ssh_user" == "" || value "ssh_key" == "")
        ≡ false)
      → value "ssh_port" ≡ itoa n
      → n < 2 ^ 63
      → has_machine (value "name") w.store.rows.machines ≡ false
      → handle_machine_create (services o) (some value) w ≡ (
        see_other "/machines",
        record w {
          store = record w.store {
            rows = record w.store.rows {
              machines =
                  w.store.rows.machines
                  ++ new_machine
                      (value "name")
                      (value "ip")
                      (stored_port (n % 2 ^ 32))
                      (value "ssh_user")
                      (value "ssh_key")
                      w.store.rows
                    ∷ [];
            };
          };
        },
      )
  unfolding handle_machine_create
  handle_machine_create_lem filled port fits free =
      rw (filled, port)
        (rw (ssh_port-itoa n fits) (
          rw
            (service_create (value "name") (value "ip") (n % 2 ^ 32) (value "ssh_user")
              (value "ssh_key") w.store.rows (ground arith) (ground arith) (ground arith)
              (ground arith) free)
            refl))
