-- ===== src/Client/Cmd/Redirection.antt =====
-- client/cmd/redirection.go: the commands of `tfw redirection`.
use tiny_file_watcher.Prelude.{String, Bool, true, false, ◌==◌, some, List, [], ◌∷◌}
use tiny_file_watcher.Server.Outcome.{Exec, refuse, ◌>>=◌, ◌>>◌}
use tiny_file_watcher.Server.Redirection.{RedirectionMessage}
use tiny_file_watcher.Client.Terminal.{
  Cell, text, quoted, time, line, row, Session, CliError, flag_missing, print, call, print_rows,
}
use tiny_file_watcher.Client.Rpc.{RedirectionClient}

abbrev redirection_cells : RedirectionMessage → List Cell
redirection_cells r =
    text r.watcher_name ∷ text r.target_machine_name ∷ text r.target_path ∷ time r.created_at ∷ []

module _ {E S : Type 0} where
  unfoldable pub print_redirections :
      List RedirectionMessage → Exec (CliError E) (Session S) (Unit {0})
  unfolding print_rows
  print_redirections redirections = do
    print
        (row (text "WATCHER" ∷ text "TARGET MACHINE" ∷ text "TARGET PATH" ∷ text "CREATED AT" ∷ []))
    print
        (row (text "-------" ∷ text "--------------" ∷ text "-----------" ∷ text "----------" ∷ []))
    print_rows redirection_cells redirections

module _ {E S : Type 0} (svc : RedirectionClient E S) where
  -- tfw redirection get
  unfoldable pub get_redirection : String → Exec (CliError E) (Session S) (Unit {0})
  unfolding print_redirections
  get_redirection watcher_name = do
    r ← call (svc.get_file_redirection watcher_name)
    print_redirections (r ∷ [])

  -- tfw redirection create
  unfoldable pub create_redirection :
      String → String → String → Exec (CliError E) (Session S) (Unit {0})
  unfolding print_redirections
  create_redirection watcher_name target_path target_machine = do
    r ← call (svc.create_file_redirection watcher_name target_path target_machine)
    print (line (text "Redirection created:" ∷ []))
    print_redirections (r ∷ [])

  -- tfw redirection update
  unfoldable pub update_redirection : String → String → Exec (CliError E) (Session S) (Unit {0})
  unfolding print_redirections
  update_redirection watcher_name target_path = do
    refuse (target_path == "") flag_missing
    r ← call (svc.update_file_redirection watcher_name (some target_path))
    print (line (text "Redirection updated:" ∷ []))
    print_redirections (r ∷ [])

  abbrev report_deleted : String → Bool → Exec (CliError E) (Session S) (Unit {0})
  report_deleted name true =
      print (line (text "Redirection for watcher " ∷ quoted name ∷ text " deleted." ∷ []))
  report_deleted name false =
      print
        (line (text "Redirection for watcher " ∷ quoted name ∷ text " could not be deleted." ∷ []))

  -- tfw redirection delete
  unfoldable pub delete_redirection : String → Exec (CliError E) (Session S) (Unit {0})
  delete_redirection watcher_name = do
    success ← call (svc.delete_file_redirection watcher_name)
    report_deleted watcher_name success
