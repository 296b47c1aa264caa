-- ===== src/Server/Web/Machines.antt =====
-- server/web/machine_handler.go: the pages of the machines and the form that creates one.
use tiny_file_watcher.Prelude.{
  ℕ, String, ◌||◌, Option, none, some, List, [], ◌==◌, first, if◌then◌else◌,
}
use tiny_file_watcher.Internal.Strconv.{atoi}
use tiny_file_watcher.Server.Outcome.{Result, ok, err, Code}
use tiny_file_watcher.Server.Watcher.Sync.{int32}
use tiny_file_watcher.Server.Machine.{MachineResponse}
use tiny_file_watcher.Server.Web.Http.{
  error, see_other, hx_redirect, machine_list, machine_detail, FormError, no_error, invalid_form,
  missing_fields, create_failed,
}
use tiny_file_watcher.Server.Web.Services.{Services, render}
use tiny_file_watcher.Server.Web.Watchers.{Answering, answer, attempt}

abbrev pub port_or_default : Option ℕ → ℕ
port_or_default none = 22
port_or_default (some p) = int32 p

-- the port of the form's text: 22 where there is none or it is not a number
unfoldable pub ssh_port : String → ℕ
ssh_port text = if text == "" then 22 else port_or_default (atoi text)

abbrev machines_or_nil : Option (List MachineResponse) → List MachineResponse
machines_or_nil none = []
machines_or_nil (some ms) = ms

module _ {S : Type 0} (svc : Services S) where
  unfoldable pub handle_machine_list : Answering S
  unfolding render
  handle_machine_list s =
      answer (svc.machine_svc.get_machines s)
        (λ machines t. (render "machines.html" (machine_list machines no_error), t))

  abbrev show_machine : String → Option MachineResponse → Answering S
  show_machine name none s = (error 404, s)
  show_machine name (some machine) s =
      answer (svc.watcher_svc.list_watchers (some name) s)
        (λ watchers t. (render "machine.html" (machine_detail machine watchers), t))

  unfoldable pub handle_machine_detail : String → Answering S
  unfolding render
  handle_machine_detail name s =
      answer (svc.machine_svc.get_machines s)
        (λ machines. show_machine name (first (λ m. m.name == name) machines))

  -- the form again, with the machines if they can be listed
  abbrev show_form : FormError → Answering S
  show_form e s =
      let (machines, s') = attempt svc.machine_svc.get_machines s in
      (render "machines.html" (machine_list (machines_or_nil machines) e), s')

  abbrev after_create : Result Code MachineResponse → Answering S
  after_create (ok m) s = (see_other "/machines", s)
  after_create (err e) s = show_form (create_failed e) s

  abbrev create_from : (String → String) → Answering S
  create_from value s =
      if value "name" == "" || value "ip" == "" || value "ssh_user" == "" || value "ssh_key" == ""
      then show_form missing_fields s
      else let (created, s') =
          svc.machine_svc.create_machine (value "name") (value "ip") (ssh_port (value "ssh_port"))
            (value "ssh_user") (value "ssh_key") s in
        after_create created s'

  unfoldable pub handle_machine_create : Option (String → String) → Answering S
  unfolding render ssh_port
  handle_machine_create none s = (render "machines.html" (machine_list [] invalid_form), s)
  handle_machine_create (some value) s = create_from value s

  unfoldable pub handle_machine_delete : String → Answering S
  handle_machine_delete name s =
      answer (svc.machine_svc.delete_machine name s) (λ done t. (hx_redirect "/machines", t))
