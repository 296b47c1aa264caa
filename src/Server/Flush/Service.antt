-- ===== src/Server/Flush/Service.antt =====
-- server/flush/service.go: the gRPC service of flushes.
use tiny_file_watcher.Prelude.{ℕ, String, Bool, false, ◌==◌, List, map}
use tiny_file_watcher.Server.Outcome.{
  Exec, Code, invalid_argument, internal, pure, refuse, or_status, ◌>>=◌, ◌>>◌,
}
use tiny_file_watcher.Server.Database.Files.{PendingFlush}
use tiny_file_watcher.Server.Database.Repositories.{FlushRepository}
use tiny_file_watcher.Server.Flush.Transfer.{SftpDialer}
use tiny_file_watcher.Server.Flush.Job
use tiny_file_watcher.Server.Flush.Job.{FlushJob}

-- the message FlushWatcherEvent
pub data Event : Type 0 where
  log_event : String → Event
  result_event : Bool → Event

-- the service, with how a message is sent to the caller of a stream
pub record FlushService (D R : Type 0) : Type 0 where
  pub flush_repository : FlushRepository D
  pub dialer : SftpDialer R
  pub send : Event → Exec (Unit {0}) R (Unit {0})

abbrev pub no_callback : {R : Type 0} → String → R → R
no_callback msg r = r

module _ {D R : Type 0} where
  -- the callback of a stream ignores that a message cannot be sent
  abbrev send_callback : FlushService D R → String → R → R
  send_callback s msg r = (s.send (log_event msg) r).1

  abbrev pub job : FlushService D R → String → (String → R → R) → FlushJob D R
  job s name on_log = record {
    watcher_name = name;
    flush_repository = s.flush_repository;
    dialer = s.dialer;
    on_log = on_log;
  }

  abbrev sending : FlushService D R → Event → Exec Code (D × R) (Unit {0})
  sending s event (d, r) = let (sent, r') = or_status internal (s.send event) r in (sent, (d, r'))

  unfoldable pub stream_flush_watcher : FlushService D R → String → Exec Code (D × R) (Unit {0})
  stream_flush_watcher s name = do
    refuse (name == "") invalid_argument
    result ← or_status internal (Job.run (job s name (send_callback s)))
    sending s (log_event "flush job completed")
    sending s (result_event result)

  unfoldable pub flush_watcher : FlushService D R → String → Exec Code (D × R) Bool
  flush_watcher s name = do
    refuse (name == "") invalid_argument
    or_status internal (Job.run (job s name no_callback))

-- the message WatchedFile as this service fills it
pub record PendingFile : Type 0 where
  pub id : ℕ
  pub watcher_id : String
  pub file_path : String
  pub file_name : String
  pub flushed : Bool

abbrev pub pending_file : PendingFlush → PendingFile
pending_file pf = record {
  id = pf.watched_file_id;
  watcher_id = pf.watcher_name;
  file_path = pf.file_path;
  file_name = pf.file_name;
  flushed = false;
}

module _ {D R : Type 0} where
  unfoldable pub list_pending_files : FlushService D R → String → Exec Code D (List PendingFile)
  list_pending_files s name = do
    refuse (name == "") invalid_argument
    pendings ← or_status internal (s.flush_repository.list_pending_flushes name)
    pure (map pending_file pendings)
