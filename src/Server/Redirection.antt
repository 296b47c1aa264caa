-- ===== src/Server/Redirection.antt =====
-- server/redirection/service.go: the gRPC service of redirections.
pub mod Lookup
use tiny_file_watcher.Prelude.{ℕ, String, Bool, true, false, Option, none, some, ◌||◌, ◌==◌}
use tiny_file_watcher.Server.Outcome.{
  Exec, Code, invalid_argument, not_found, internal, pure, refuse, or_status, ◌>>=◌, ◌>>◌,
}
use tiny_file_watcher.Server.Database.{FileRedirection}
use tiny_file_watcher.Server.Database.Repositories.{RedirectionRepository, MachineRepository}

-- the message FileRedirection
pub record RedirectionMessage : Type 0 where
  pub watcher_name : String
  pub target_path : String
  pub target_machine_name : String
  pub created_at : ℕ
  pub updated_at : ℕ

abbrev pub to_proto : FileRedirection → RedirectionMessage
to_proto r = record {
  watcher_name = r.watcher_name;
  target_path = r.target_path;
  target_machine_name = r.target_machine_name;
  created_at = r.created_at;
  updated_at = r.updated_at;
}

pub record RedirectionService (S : Type 0) : Type 0 where
  pub redirection_repository : RedirectionRepository S
  pub machine_repository : MachineRepository S

abbrev is_nil : Option String → Bool
is_nil none = true
is_nil (some x) = false

module _ {S : Type 0} (s : RedirectionService S) where
  unfoldable pub create_file_redirection : String → String → String → Exec Code S RedirectionMessage
  create_file_redirection watcher_name target_path target_machine_name = do
    refuse (watcher_name == "" || target_path == "") invalid_argument
    refuse (target_machine_name == "") invalid_argument
    or_status not_found (s.machine_repository.get_machine_by_name target_machine_name)
    redirection ←
        or_status internal
          (s.redirection_repository.add_redirection watcher_name target_path target_machine_name)
    pure (to_proto redirection)

  unfoldable pub get_file_redirection : String → Exec Code S RedirectionMessage
  get_file_redirection name = do
    redirection ← or_status not_found (s.redirection_repository.get_redirection name)
    pure (to_proto redirection)

  unfoldable pub update_file_redirection : String → Option String → Exec Code S RedirectionMessage
  update_file_redirection watcher_name target_path = do
    refuse (watcher_name == "" || is_nil target_path) invalid_argument
    redirection ←
        or_status internal (s.redirection_repository.update_redirection watcher_name target_path)
    pure (to_proto redirection)

  unfoldable pub delete_file_redirection : String → Exec Code S Bool
  delete_file_redirection watcher_name = do
    or_status internal (s.redirection_repository.remove_redirection watcher_name)
    pure true
