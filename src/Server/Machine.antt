-- ===== src/Server/Machine.antt =====
-- server/machine/service.go: the gRPC service of machines.
pub mod Deletion
use tiny_file_watcher.Prelude.{
  ℕ, String, Bool, true, Option, List, map, ◌==◌, nat_eq, if◌then◌else◌,
}
use tiny_file_watcher.Server.Outcome.{
  Exec, Code, invalid_argument, internal, pure, refuse, or_status, ◌>>=◌, ◌>>◌,
}
use tiny_file_watcher.Server.Database.{Machine}
use tiny_file_watcher.Server.Database.Repositories.{MachineRepository}

-- the message MachineResponse
pub record MachineResponse : Type 0 where
  pub ssh_user : String
  pub ssh_private_key : String
  pub name : String
  pub created_at : ℕ
  pub updated_at : ℕ
  pub ip : String
  pub ssh_port : ℕ

abbrev pub to_proto : Machine → MachineResponse
to_proto m = record {
  ssh_user = m.ssh_user;
  ssh_private_key = m.ssh_private_key_path;
  name = m.name;
  created_at = m.created_at;
  updated_at = m.updated_at;
  ip = m.ip;
  ssh_port = m.ssh_port;
}

module _ {S : Type 0} (repo : MachineRepository S) where
  -- port 0 stands for the port that was left out
  unfoldable pub create_machine :
      String → String → ℕ → String → String → Exec Code S MachineResponse
  create_machine name ip ssh_port ssh_user ssh_private_key = do
    refuse (name == "") invalid_argument
    refuse (ip == "") invalid_argument
    refuse (ssh_user == "") invalid_argument
    refuse (ssh_private_key == "") invalid_argument
    let port : ℕ = if nat_eq ssh_port 0 then 22 else ssh_port
    m ← or_status internal (repo.create_machine name ip port ssh_user ssh_private_key)
    pure (to_proto m)

  unfoldable pub get_machines : Exec Code S (List MachineResponse)
  get_machines = do machines ← or_status internal repo.list_machines; pure (map to_proto machines)

  unfoldable pub update_machine :
      String
      → Option String
      → Option ℕ
      → Option String
      → Option String
      → Exec Code S MachineResponse
  update_machine name ip ssh_port ssh_user ssh_private_key = do
    refuse (name == "") invalid_argument
    updated ← or_status internal (repo.update_machine name ip ssh_port ssh_user ssh_private_key)
    pure (to_proto updated)

  unfoldable pub delete_machine : String → Exec Code S Bool
  delete_machine name = do
    refuse (name == "") invalid_argument
    or_status internal (repo.delete_machine name)
    pure true
