-- ===== src/Client/Cmd/Watcher.antt =====
-- client/cmd/watcher.go: the commands of `tfw watcher`.
use tiny_file_watcher.Prelude.{
  String, Bool, true, false, ◌&&◌, ◌==◌, Option, none, some, List, [], ◌∷◌, if◌then◌else◌,
}
use tiny_file_watcher.Internal.FilePath.{split}
use tiny_file_watcher.Server.Outcome.{Exec, refuse, map_err, ◌>>=◌, ◌>>◌}
use tiny_file_watcher.Server.Watcher.Service.{WatcherMessage, FileMessage}
use tiny_file_watcher.Client.Terminal.{
  Cell, text, quoted, number, flag, time, line, row, Session, CliError, watcher_missing,
  flag_missing, print, call, print_rows,
}
use tiny_file_watcher.Client.Rpc.{WatcherClient}

unfoldable pub last_piece : String → List String → String
last_piece found [] = found
last_piece found (x ∷ xs) = last_piece x xs

-- what follows the last slash of a path, all of it if there is none
unfoldable pub file_name : String → String
unfolding last_piece
file_name path = last_piece path (split path)

-- a flag that is empty is not sent
abbrev pub if_given : String → Option String
if_given value = if value == "" then none else some value

abbrev watcher_cells : WatcherMessage → List Cell
watcher_cells w =
    number w.id ∷ text w.name ∷ text w.machine_name ∷ text w.source_path ∷ time w.created_at ∷ []

abbrev path_cells : FileMessage → List Cell
path_cells f = text f.file_path ∷ flag f.flushed ∷ time f.detected_at ∷ []

abbrev name_cells : FileMessage → List Cell
name_cells f = text (file_name f.file_path) ∷ flag f.flushed ∷ time f.detected_at ∷ []

abbrev file_header : Bool → Cell
file_header true = text "FILE PATH"
file_header false = text "FILE NAME"

abbrev file_cells : Bool → FileMessage → List Cell
file_cells true f = path_cells f
file_cells false f = name_cells f

module _ {E S : Type 0} where
  unfoldable pub print_watchers : List WatcherMessage → Exec (CliError E) (Session S) (Unit {0})
  unfolding print_rows
  print_watchers watchers = do
    print (
        row
          (text "ID" ∷ text "NAME" ∷ text "MACHINE" ∷ text "SOURCE PATH" ∷ text "CREATED AT" ∷ []))
    print (
        row
          (text "--" ∷ text "----" ∷ text "-------" ∷ text "-----------" ∷ text "----------" ∷ []))
    print_rows watcher_cells watchers

  unfoldable pub print_watched_files :
      List FileMessage → Bool → Exec (CliError E) (Session S) (Unit {0})
  unfolding print_rows file_name
  print_watched_files files show_path = do
    print (row (file_header show_path ∷ text "FLUSHED" ∷ text "DETECTED AT" ∷ []))
    print (row (text "---------" ∷ text "-------" ∷ text "-----------" ∷ []))
    print_rows (file_cells show_path) files

module _ {E S : Type 0} (svc : WatcherClient E S) where
  -- tfw watcher files
  unfoldable pub list_watcher_files : String → Bool → Exec (CliError E) (Session S) (Unit {0})
  unfolding print_watched_files
  list_watcher_files watcher_name show_path = do
    files ← call (svc.list_watched_files watcher_name)
    print_watched_files files show_path

  -- tfw watcher list
  unfoldable pub list_watchers : String → Exec (CliError E) (Session S) (Unit {0})
  unfolding print_watchers
  list_watchers machine = do
    watchers ← call (svc.list_watchers (if_given machine))
    print_watchers watchers

  -- tfw watcher get
  unfoldable pub get_watcher : String → Exec (CliError E) (Session S) (Unit {0})
  unfolding print_watchers
  get_watcher name = do w ← call (svc.get_watcher_by_name name); print_watchers (w ∷ [])

  -- tfw watcher create
  unfoldable pub create_watcher :
      String → String → String → Bool → Exec (CliError E) (Session S) (Unit {0})
  unfolding print_watchers
  create_watcher name path machine flush_existing = do
    w ← call (svc.create_watcher name path machine flush_existing)
    print (line (text "Watcher created:" ∷ []))
    print_watchers (w ∷ [])

  abbrev call_or_missing : {A : Type 0} → Exec E S A → Exec (CliError E) (Session S) A
  call_or_missing m s =
      let (r, server) = m s.server in (map_err watcher_missing r, record s { server = server })

  -- tfw watcher update: the id is looked up by the name
  unfoldable pub update_watcher :
      String → String → String → Exec (CliError E) (Session S) (Unit {0})
  unfolding print_watchers
  update_watcher name new_name new_path = do
    refuse (new_name == "" && new_path == "") flag_missing
    existing ← call_or_missing (svc.get_watcher_by_name name)
    w ← call (svc.update_watcher existing.id (if_given new_name) (if_given new_path))
    print (line (text "Watcher updated:" ∷ []))
    print_watchers (w ∷ [])

  abbrev report_deleted : String → Bool → Exec (CliError E) (Session S) (Unit {0})
  report_deleted name true = print (line (text "Watcher " ∷ quoted name ∷ text " deleted." ∷ []))
  report_deleted name false =
      print (line (text "Watcher " ∷ quoted name ∷ text " could not be deleted." ∷ []))

  -- tfw watcher delete
  unfoldable pub delete_watcher : String → Exec (CliError E) (Session S) (Unit {0})
  delete_watcher name = do success ← call (svc.delete_watcher name); report_deleted name success
