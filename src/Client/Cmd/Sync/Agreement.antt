-- ===== src/Client/Cmd/Sync/Agreement.antt =====
-- client/cmd/sync.go over server/watcher/service.go: `tfw sync` with and without --no-stream, where
-- the connection carries each call to the service and each message of a stream back, in order.
use tiny_file_watcher.Prelude.{◌≡◌, String, Option, none, some, List, [], ◌++◌, map, ◌⊎◌}
use tiny_file_watcher.Server.Outcome.{Result, ok, err, Code, continue}
use tiny_file_watcher.Server.Watcher.Service as Service
use tiny_file_watcher.Server.Watcher.Service.{WatcherService, Guarded, Event}
use tiny_file_watcher.Server.Watcher.Streaming.{Streamed, streamed}
use tiny_file_watcher.Server.Watcher.Streaming.Ends.{with_stream}
use tiny_file_watcher.Client.Terminal.{Line, Session, CliError, rpc, call}
use tiny_file_watcher.Client.Rpc.{Stream, WatcherClient}
use tiny_file_watcher.Client.Cmd.Sync.{receive}
use tiny_file_watcher.Client.Cmd.Sync.Printing.{log_line}

-- the status that ends a stream; io.EOF if its handler succeeds
abbrev failure_of : Result Code (Unit {0}) → Option Code
failure_of (ok t) = none
failure_of (err c) = some c

module _ {S : Type 0} where
  -- what the client receives of a handler
  abbrev pub received :
      Result Code (Unit {0}) × Guarded (Streamed S) → Result Code (Stream Code Event) × Guarded S
  received (r, g) = (
    ok (record { messages = g.rows.1; failure = failure_of r }),
    record { rows = g.rows.0; locks = g.locks },
  )

  -- the client of a connection to the service, for the two calls
  abbrev pub connected :
      WatcherService S → WatcherClient Code (Guarded S) → WatcherClient Code (Guarded S)
  connected svc rest = record rest {
    sync_watcher = λ name. Service.sync_watcher svc name;
    stream_sync_watcher =
        λ name g. received (Service.stream_sync_watcher (streamed svc) name (with_stream g []));
  }

  module _ (name : String) (s : Session (Guarded S)) where
    abbrev logged : Guarded S → List String → Session (Guarded S)
    logged g messages = record { server = g; printed = s.printed ++ map log_line messages }

    -- the two commands, of which the first one streams, end alike
    abbrev pub Alike :
        (streaming single : Result (CliError Code) (Unit {0}) × Session (Guarded S)) → Type 0
    Alike streaming single =
        (messages : List String) × (g : Guarded S) × (((summary : List Line) × (single
              ≡ (ok tt, record { server = g; printed = s.printed ++ summary }))
            × (streaming ≡ (
              ok tt,
              record { server = g; printed = (s.printed ++ map log_line messages) ++ summary },
            )))
          ⊎ ((c : Code) × (single ≡ (err (rpc c), record { server = g; printed = s.printed }))
              × (streaming ≡ (err (rpc c), logged g messages))))

    -- what the streaming command does with the end of the handler
    abbrev shown :
        Result Code (Unit {0}) × Guarded (Streamed S)
        → Result (CliError Code) (Unit {0}) × Session (Guarded S)
    shown y =
        continue (call (λ g. received y) s) (λ stream. receive name stream.messages stream.failure)
