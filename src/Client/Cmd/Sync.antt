-- ===== src/Client/Cmd/Sync.antt =====
-- client/cmd/sync.go: `tfw sync` over the stream and over the single call.
pub mod Printing
pub mod Agreement
use tiny_file_watcher.Prelude.{ℕ, String, Bool, Option, none, some, List, [], ◌∷◌, if◌then◌else◌}
use tiny_file_watcher.Server.Outcome.{ok, err, Exec, pure, fail, ◌>>=◌, ◌>>◌}
use tiny_file_watcher.Server.Watcher.Service.{SyncWatcherResponse, Event, log_event, result_event}
use tiny_file_watcher.Client.Terminal.{
  text, quoted, bytes, number, line, Session, CliError, rpc, panicked, print, call, utf8,
  shorten_path,
}
use tiny_file_watcher.Client.Rpc.{WatcherClient}

module _ {E S : Type 0} where
  -- shortenPath(f, 40)
  abbrev pub shorten : String → Exec (CliError E) (Session S) (List ℕ)
  shorten path s = elim (shorten_path (utf8 path) 40) [
    | none ↦ (err panicked, s)
    | some short ↦ (ok short, s)
  ]

  -- the lines of the files, each after its sign
  unfoldable pub print_paths : String → List String → Exec (CliError E) (Session S) (Unit {0})
  print_paths sign [] = pure tt
  print_paths sign (f ∷ files) = do
    short ← shorten f
    print (line (text sign ∷ bytes short ∷ []))
    print_paths sign files

  abbrev print_section : String → String → List String → Exec (CliError E) (Session S) (Unit {0})
  print_section title sign [] = pure tt
  print_section title sign (f ∷ files) = do
    print (line (text title ∷ []))
    print_paths sign (f ∷ files)

  unfoldable pub print_sync_result :
      String → SyncWatcherResponse → Exec (CliError E) (Session S) (Unit {0})
  unfolding print_paths
  print_sync_result name r = do
    print (line (text "Sync complete for watcher " ∷ quoted name ∷ text ":" ∷ []))
    print (line (text "  Added:   " ∷ number r.added_count ∷ text " file(s)" ∷ []))
    print (line (text "  Removed: " ∷ number r.removed_count ∷ text " file(s)" ∷ []))
    print_section "  Added files:" "    + " r.added_files
    print_section "  Removed files:" "    - " r.removed_files

  abbrev show_event : String → Event → Exec (CliError E) (Session S) (Unit {0})
  show_event name (log_event message) = print (line (text "[sync] " ∷ text message ∷ []))
  show_event name (result_event r) = print_sync_result name r

  abbrev stream_end : Option E → Exec (CliError E) (Session S) (Unit {0})
  stream_end none = pure tt
  stream_end (some e) = fail (rpc e)

  -- the loop over Recv
  unfoldable pub receive : String → List Event → Option E → Exec (CliError E) (Session S) (Unit {0})
  unfolding print_sync_result
  receive name [] failure = stream_end failure
  receive name (event ∷ events) failure = do show_event name event; receive name events failure

module _ {E S : Type 0} (svc : WatcherClient E S) where
  unfoldable pub run_unary_sync_watcher : String → Exec (CliError E) (Session S) (Unit {0})
  unfolding print_sync_result
  run_unary_sync_watcher name = do resp ← call (svc.sync_watcher name); print_sync_result name resp

  unfoldable pub run_stream_sync_watcher : String → Exec (CliError E) (Session S) (Unit {0})
  unfolding receive
  run_stream_sync_watcher name = do
    stream ← call (svc.stream_sync_watcher name)
    receive name stream.messages stream.failure

  -- tfw sync
  unfoldable pub sync_watcher : String → Bool → Exec (CliError E) (Session S) (Unit {0})
  unfolding run_unary_sync_watcher run_stream_sync_watcher
  sync_watcher name no_stream =
      if no_stream then run_unary_sync_watcher name else run_stream_sync_watcher name
