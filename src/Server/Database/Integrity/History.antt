-- ===== src/Server/Database/Integrity/History.antt =====
-- server/database: sequences of repository calls, and the constraints of schema.sql.
use tiny_file_watcher.Prelude.{ℕ, String, Bool, Option, List, [], ◌∷◌}
use tiny_file_watcher.Internal.Set.{Set}
use tiny_file_watcher.Server.Database.{Db}
use tiny_file_watcher.Server.Database.Machines
use tiny_file_watcher.Server.Database.Watchers
use tiny_file_watcher.Server.Database.Files
use tiny_file_watcher.Server.Database.Redirections
use tiny_file_watcher.Server.Database.Integrity.{IsConsistent}
use tiny_file_watcher.Server.Database.Integrity.Machines.{
  create_machine-IsConsistent, delete_machine-IsConsistent, update_machine-IsConsistent,
}
use tiny_file_watcher.Server.Database.Integrity.Watchers.{
  create_watcher-IsConsistent, update_watcher-IsConsistent, delete_watcher-IsConsistent,
}
use tiny_file_watcher.Server.Database.Integrity.Files.{
  bulk_add-IsConsistent, add_watched_file-IsConsistent, remove_watched_file-IsConsistent,
  bulk_remove-IsConsistent, flush-IsConsistent,
}
use tiny_file_watcher.Server.Database.Integrity.Redirections.{
  add_redirection-IsConsistent, remove_redirection-IsConsistent, update_redirection-IsConsistent,
}

-- the repository calls that write, each with its arguments
pub data Call : Type 0 where
  create_machine : String → String → ℕ → String → String → Call
  update_machine : String → Option String → Option ℕ → Option String → Option String → Call
  delete_machine : String → Call
  create_watcher : String → String → String → Call
  update_watcher : ℕ → Option String → Option String → Call
  delete_watcher : String → Call
  add_watched_file : String → String → Bool → Call
  bulk_add_watched_files : String → Set String → Bool → Call
  remove_watched_file : String → String → Call
  bulk_remove_watched_files : String → List String → Call
  flush_watched_files : List ℕ → Call
  add_redirection : String → String → String → Call
  remove_redirection : String → Call
  update_redirection : String → Option String → Call
  -- time passes between two calls
  at_time : ℕ → Call

abbrev pub perform : Db → Call → Db
perform db (create_machine name ip port user key) =
    (Machines.create_machine name ip port user key db).1
perform db (update_machine name ip port user key) =
    (Machines.update_machine name ip port user key db).1
perform db (delete_machine name) = (Machines.delete_machine name db).1
perform db (create_watcher name path machine) = (Watchers.create_watcher name path machine db).1
perform db (update_watcher id name path) = (Watchers.update_watcher id name path db).1
perform db (delete_watcher name) = (Watchers.delete_watcher name db).1
perform db (add_watched_file w path flushed) = (Files.add_watched_file w path flushed db).1
perform db (bulk_add_watched_files w files flushed) =
    (Files.bulk_add_watched_files w files flushed db).1
perform db (remove_watched_file w path) = (Files.remove_watched_file w path db).1
perform db (bulk_remove_watched_files w paths) = (Files.bulk_remove_watched_files w paths db).1
perform db (flush_watched_files ids) = (Files.flush_watched_files ids db).1
perform db (add_redirection w path machine) = (Redirections.add_redirection w path machine db).1
perform db (remove_redirection w) = (Redirections.remove_redirection w db).1
perform db (update_redirection w path) = (Redirections.update_redirection w path db).1
perform db (at_time t) = record db { clock = t }

abbrev pub history : Db → List Call → Db
history db [] = db
history db (c ∷ cs) = history (perform db c) cs

-- the tables that `Open` creates
abbrev pub empty_db : ℕ → Db
empty_db now = record { machines = []; watchers = []; files = []; redirections = []; clock = now }

at_time-IsConsistent : (t : ℕ) (db : Db) → IsConsistent db → IsConsistent (record db { clock = t })
at_time-IsConsistent t db c = record {
  machine_names = c.machine_names;
  watcher_names = c.watcher_names;
  watcher_ids = c.watcher_ids;
  file_ids = c.file_ids;
  redirection_names = c.redirection_names;
  on_machine = c.on_machine;
  of_watcher = c.of_watcher;
  redirects = c.redirects;
}

perform-IsConsistent : (db : Db) (c : Call) → IsConsistent db → IsConsistent (perform db c)
perform-IsConsistent db (create_machine n i p u k) h = create_machine-IsConsistent n i p u k db h
perform-IsConsistent db (update_machine n i p u k) h = update_machine-IsConsistent n i p u k db h
perform-IsConsistent db (delete_machine n) h = delete_machine-IsConsistent n db h
perform-IsConsistent db (create_watcher n p m) h = create_watcher-IsConsistent n p m db h
perform-IsConsistent db (update_watcher i n p) h = update_watcher-IsConsistent i n p db h
perform-IsConsistent db (delete_watcher n) h = delete_watcher-IsConsistent n db h
perform-IsConsistent db (add_watched_file w p f) h = add_watched_file-IsConsistent w p f db h
perform-IsConsistent db (bulk_add_watched_files w s f) h = bulk_add-IsConsistent w s f db h
perform-IsConsistent db (remove_watched_file w p) h = remove_watched_file-IsConsistent w p db h
perform-IsConsistent db (bulk_remove_watched_files w ps) h = bulk_remove-IsConsistent w ps db h
perform-IsConsistent db (flush_watched_files is) h = flush-IsConsistent is db h
perform-IsConsistent db (add_redirection w p m) h = add_redirection-IsConsistent w p m db h
perform-IsConsistent db (remove_redirection w) h = remove_redirection-IsConsistent w db h
perform-IsConsistent db (update_redirection w p) h = update_redirection-IsConsistent w p db h
perform-IsConsistent db (at_time t) h = at_time-IsConsistent t db h

history-IsConsistent : (db : Db) (cs : List Call) → IsConsistent db → IsConsistent (history db cs)
history-IsConsistent db [] h = h
history-IsConsistent db (c ∷ cs) h =
    history-IsConsistent (perform db c) cs (perform-IsConsistent db c h)

-- After any sequence of repository calls on the empty database, whether they succeed or fail, the
-- names of machines, watchers and redirections are distinct, so are the ids of watchers and files,
-- every watcher is on a machine that exists, every file and redirection belongs to a watcher that
-- exists, and every redirection copies to a machine that exists.
pub history_of_empty-IsConsistent :
    (now : ℕ) (cs : List Call) → IsConsistent (history (empty_db now) cs)
history_of_empty-IsConsistent now cs = history-IsConsistent (empty_db now) cs (record {
  machine_names = tt;
  watcher_names = tt;
  watcher_ids = tt;
  file_ids = tt;
  redirection_names = tt;
  on_machine = tt;
  of_watcher = tt;
  redirects = tt;
})
