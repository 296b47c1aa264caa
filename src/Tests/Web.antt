-- ===== src/Tests/Web.antt =====
-- The theorems on the web UI over the services, on concrete inputs.
use tiny_file_watcher.Prelude.{
  arith, ℕ, ◌≡◌, refl, String, true, false, some, [], ◌∷◌, ◌++◌, ◌==◌, if◌then◌else◌,
}
use tiny_file_watcher.Internal.Strconv.{itoa}
use tiny_file_watcher.Server.Outcome.{ok, err, internal, not_found}
use tiny_file_watcher.Server.Database.Machines.{new_machine}
use tiny_file_watcher.Server.Flush.Service.{PendingFile}
use tiny_file_watcher.Server.Web.Http.{Request, post, page, html, dashboard, see_other}
use tiny_file_watcher.Server.Web.Upload.{Disk}
use tiny_file_watcher.Server.Web.Services.{Services}
use tiny_file_watcher.Server.Web.Watchers.{handle_dashboard}
use tiny_file_watcher.Server.Web.Machines.{handle_machine_create}
use tiny_file_watcher.Server.Web.Actions.{handle_flush}
use tiny_file_watcher.Server.Web.Actions.Markup.{StandsIn, handle_flush-StandsIn}
use tiny_file_watcher.Server.App.{World, Outside, services}
use tiny_file_watcher.Server.App.Dashboard.{handle_dashboard_lem}
use tiny_file_watcher.Server.App.Ports.{handle_machine_create_lem}
use tiny_file_watcher.Tests.Fixtures.{db, db-IsConsistent, tree, no_rules}
use tiny_file_watcher.Tests.Services.{callback}

abbrev outside : Outside ℕ
outside = record {
  connect = λ m. ok tree;
  compile = no_rules;
  dialer = λ cfg r. (err tt, r);
  send_sync = λ event d. (ok tt, d);
  send_flush = λ event r. (ok tt, r);
}

abbrev world : World ℕ
world = record { store = record { rows = db; locks = [] }; remote = 0 }

abbrev disk : Disk (World ℕ)
disk = record {
  mkdir_all = λ path w. (ok tt, w);
  create = λ path w. (ok tt, w);
  write = λ path text w. (ok tt, w);
}

abbrev sync_request : Request
sync_request = record callback { method = post; path = "watchers" ∷ "docs" ∷ "sync" ∷ [] }

handle_dashboard_lem_example :
    handle_dashboard (services outside) world ≡ (page "index.html" (dashboard 1 1), world)
handle_dashboard_lem_example = handle_dashboard_lem outside world db-IsConsistent

abbrev typed : String → String
typed key =
    if key == "name"
    then "box"
    else if key == "ssh_port"
    then "4294967318"
    else if key == "ip"
    then "10.0.0.3"
    else "x"

typed_port : typed "ssh_port" ≡ itoa 4294967318
unfolding itoa
typed_port = refl

handle_machine_create_lem_example : handle_machine_create (services outside) (some typed) world ≡ (
  see_other "/machines",
  record world {
    store = record world.store {
      rows = record db {
        machines = db.machines ++ new_machine "box" "10.0.0.3" 22 "x" "x" db ∷ [];
      };
    };
  },
)
handle_machine_create_lem_example =
    handle_machine_create_lem outside world typed 4294967318 refl typed_port (omega arith) refl

abbrev script : PendingFile
script = record {
  id = 1;
  watcher_id = "docs";
  file_path = "/srv";
  file_name = "<b>";
  flushed = false;
}

-- services of which only a flush that leaves a file pending is used
abbrev listing : Services ℕ
listing = record {
  watcher_svc = record {
    list_watchers = λ machine n. (err internal, n);
    sync_watcher = λ name n. (err internal, n);
  };
  flush_svc = record {
    list_pending_files = λ name n. (ok (script ∷ []), n);
    flush_watcher = λ name n. (ok true, n);
  };
  redirect_svc = record { get_file_redirection = λ name n. (err not_found, n) };
  machine_svc = record {
    get_machines = λ n. (err internal, n);
    create_machine = λ name ip port user key n. (err internal, n);
    delete_machine = λ name n. (err internal, n);
  };
}

handle_flush-StandsIn_example :
    (text : String) × (handle_flush listing "docs" 0 ≡ (html text, 0)) × StandsIn "<b>" text
handle_flush-StandsIn_example =
    handle_flush-StandsIn listing "docs" 0 0 0 true [] [] script refl refl
