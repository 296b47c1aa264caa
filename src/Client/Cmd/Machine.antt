-- ===== src/Client/Cmd/Machine.antt =====
-- client/cmd/machine.go: the commands of `tfw machine`. A port is the bit pattern of an int32.
use tiny_file_watcher.Prelude.{
  ℕ, String, Bool, true, false, Option, none, some, List, [], ◌∷◌, nat_eq, if◌then◌else◌,
}
use tiny_file_watcher.Server.Outcome.{Exec, ◌>>=◌, ◌>>◌}
use tiny_file_watcher.Server.Machine.{MachineResponse}
use tiny_file_watcher.Client.Terminal.{
  Cell, text, quoted, number, time, line, row, Session, CliError, print, call, print_rows,
}
use tiny_file_watcher.Client.Rpc.{MachineClient}
use tiny_file_watcher.Client.Cmd.Watcher.{if_given}

abbrev port_if_given : ℕ → Option ℕ
port_if_given port = if nat_eq port 0 then none else some port

abbrev machine_cells : MachineResponse → List Cell
machine_cells m =
    text m.name
    ∷ text m.ip
    ∷ number m.ssh_port
    ∷ text m.ssh_user
    ∷ text m.ssh_private_key
    ∷ time m.created_at
    ∷ []

module _ {E S : Type 0} where
  unfoldable pub print_machines : List MachineResponse → Exec (CliError E) (Session S) (Unit {0})
  unfolding print_rows
  print_machines machines = do
    print (
        row (
          text "NAME"
          ∷ text "IP"
          ∷ text "SSH PORT"
          ∷ text "SSH USER"
          ∷ text "SSH PRIVATE KEY"
          ∷ text "CREATED AT"
          ∷ []))
    print (
        row (
          text "----"
          ∷ text "--"
          ∷ text "--------"
          ∷ text "--------"
          ∷ text "---------------"
          ∷ text "----------"
          ∷ []))
    print_rows machine_cells machines

module _ {E S : Type 0} (svc : MachineClient E S) where
  abbrev report_machine :
      String → MachineResponse → String → Exec (CliError E) (Session S) (Unit {0})
  report_machine done m user = print (
      line (
        text "Machine "
        ∷ quoted m.name
        ∷ text done
        ∷ text " (ip: "
        ∷ text m.ip
        ∷ text ", ssh-port: "
        ∷ number m.ssh_port
        ∷ text ", ssh-user: "
        ∷ text user
        ∷ text ")"
        ∷ []))

  -- tfw machine update
  unfoldable pub update_machine :
      String → String → ℕ → String → String → Exec (CliError E) (Session S) (Unit {0})
  update_machine name ip ssh_port ssh_user ssh_key = do
    print (line (text "Updating machine " ∷ text name ∷ []))
    resp ← call (
        svc.update_machine name (if_given ip) (port_if_given ssh_port) (if_given ssh_user)
          (if_given ssh_key))
    report_machine " updated" resp resp.ssh_user

  -- tfw machine create
  unfoldable pub create_machine :
      String → String → ℕ → String → String → Exec (CliError E) (Session S) (Unit {0})
  create_machine name ip ssh_port ssh_user ssh_key = do
    print (
        line (
          text "Creating machine "
          ∷ quoted name
          ∷ text " with IP "
          ∷ quoted ip
          ∷ text ", SSH port "
          ∷ number ssh_port
          ∷ text ", SSH user "
          ∷ quoted ssh_user
          ∷ text "..."
          ∷ []))
    print (line (text "Using SSH key " ∷ quoted ssh_key ∷ []))
    resp ← call (svc.create_machine name ip ssh_port ssh_user ssh_key)
    report_machine " created" resp ssh_user

  -- tfw machine list
  unfoldable pub list_machines : Exec (CliError E) (Session S) (Unit {0})
  unfolding print_machines
  list_machines = do machines ← call svc.get_machines; print_machines machines

  abbrev report_deleted : String → Bool → Exec (CliError E) (Session S) (Unit {0})
  report_deleted name true = print (line (text "Machine " ∷ quoted name ∷ text " deleted." ∷ []))
  report_deleted name false =
      print (line (text "Machine " ∷ quoted name ∷ text " could not be deleted." ∷ []))

  -- tfw machine delete
  unfoldable pub delete_machine : String → Exec (CliError E) (Session S) (Unit {0})
  delete_machine name = do success ← call (svc.delete_machine name); report_deleted name success
