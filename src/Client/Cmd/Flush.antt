-- ===== src/Client/Cmd/Flush.antt =====
-- client/cmd/flush.go: the commands of `tfw flush`.
use tiny_file_watcher.Prelude.{
  String, Bool, true, false, Option, none, some, List, [], ◌∷◌, if◌then◌else◌,
}
use tiny_file_watcher.Server.Outcome.{Exec, pure, fail, ◌>>=◌, ◌>>◌}
use tiny_file_watcher.Server.Flush.Service.{PendingFile, Event, log_event, result_event}
use tiny_file_watcher.Client.Terminal.{
  Cell, text, quoted, bytes, number, line, row, Session, CliError, rpc, print, call, print_rows,
}
use tiny_file_watcher.Client.Rpc.{FlushClient}
use tiny_file_watcher.Client.Cmd.Sync.{shorten}

abbrev pending_cells : PendingFile → List Cell
pending_cells f = number f.id ∷ text f.watcher_id ∷ text f.file_name ∷ []

module _ {E S : Type 0} where
  -- the rows with the path of each file
  unfoldable pub print_with_paths : List PendingFile → Exec (CliError E) (Session S) (Unit {0})
  print_with_paths [] = pure tt
  print_with_paths (f ∷ files) = do
    short ← shorten f.file_path
    print (row (number f.id ∷ text f.watcher_id ∷ text f.file_name ∷ bytes short ∷ []))
    print_with_paths files

  unfoldable pub print_flushed_watched_files :
      List PendingFile → Bool → Exec (CliError E) (Session S) (Unit {0})
  unfolding print_with_paths print_rows
  print_flushed_watched_files files true = do
    print (row (text "ID" ∷ text "WATCHER" ∷ text "FILE NAME" ∷ text "FILE PATH" ∷ []))
    print (row (text "--" ∷ text "-------" ∷ text "---------" ∷ text "---------" ∷ []))
    print_with_paths files
  print_flushed_watched_files files false = do
    print (row (text "ID" ∷ text "WATCHER" ∷ text "FILE NAME" ∷ []))
    print (row (text "--" ∷ text "-------" ∷ text "---------" ∷ []))
    print_rows pending_cells files

  unfoldable pub print_flush_result : String → Bool → Exec (CliError E) (Session S) (Unit {0})
  print_flush_result name true =
      print (line (text "Watcher " ∷ quoted name ∷ text " flushed successfully." ∷ []))
  print_flush_result name false =
      print (line (text "Watcher " ∷ quoted name ∷ text " could not be flushed." ∷ []))

  abbrev show_event : String → Event → Exec (CliError E) (Session S) (Unit {0})
  show_event name (log_event message) = print (line (text "[flush] " ∷ text message ∷ []))
  show_event name (result_event success) = print_flush_result name success

  abbrev stream_end : Option E → Exec (CliError E) (Session S) (Unit {0})
  stream_end none = pure tt
  stream_end (some e) = fail (rpc e)

  -- the loop over Recv
  unfoldable pub receive : String → List Event → Option E → Exec (CliError E) (Session S) (Unit {0})
  unfolding print_flush_result
  receive name [] failure = stream_end failure
  receive name (event ∷ events) failure = do show_event name event; receive name events failure

module _ {E S : Type 0} (svc : FlushClient E S) where
  abbrev show_pending : String → Bool → List PendingFile → Exec (CliError E) (Session S) (Unit {0})
  show_pending name show_path [] =
      print (line (text "No pending files for watcher " ∷ quoted name ∷ text "." ∷ []))
  show_pending name show_path (f ∷ files) = print_flushed_watched_files (f ∷ files) show_path

  -- tfw flush pending
  unfoldable pub pending_files : String → Bool → Exec (CliError E) (Session S) (Unit {0})
  unfolding print_flushed_watched_files
  pending_files name show_path = do
    files ← call (svc.list_pending_files name)
    show_pending name show_path files

  unfoldable pub run_unary_flush_watcher : String → Exec (CliError E) (Session S) (Unit {0})
  unfolding print_flush_result
  run_unary_flush_watcher name = do
    success ← call (svc.flush_watcher name)
    print_flush_result name success

  unfoldable pub run_stream_flush_watcher : String → Exec (CliError E) (Session S) (Unit {0})
  unfolding receive
  run_stream_flush_watcher name = do
    stream ← call (svc.stream_flush_watcher name)
    receive name stream.messages stream.failure

  -- tfw flush run
  unfoldable pub run_flush : String → Bool → Exec (CliError E) (Session S) (Unit {0})
  unfolding run_unary_flush_watcher run_stream_flush_watcher
  run_flush name no_stream =
      if no_stream then run_unary_flush_watcher name else run_stream_flush_watcher name
