-- ===== src/Server/Watcher/Streaming/Ends.antt =====
-- server/watcher/service.go: how a call of StreamSyncWatcher ends.
use mathlib.Core.List.{append-nil}
use tiny_file_watcher.Prelude.{
  false, ◌≡◌, refl, sym, ap, String, List, [], ◌∷◌, ◌++◌, map, Bool-cases, inl, inr, ◌==◌,
}
use tiny_file_watcher.Server.Outcome.{
  Result, ok, err, Code, invalid_argument, already_exists, internal, not_found, outcome-cases,
}
use tiny_file_watcher.Server.Watcher.Locks.{try_acquire_sync_lock}
use tiny_file_watcher.Server.Watcher.Sync
use tiny_file_watcher.Server.Watcher.Service.{
  WatcherService, Guarded, Event, log_event, result_event, SyncWatcherResponse, sync_watcher,
  stream_sync_watcher,
}
use tiny_file_watcher.Server.Watcher.Streaming.{Streamed, streamed}
use tiny_file_watcher.Server.Watcher.Streaming.Jobs.{quiet, run-Logs}

module _ {S : Type 0} where
  -- the state of a stream's handler
  abbrev pub with_stream : Guarded S → List Event → Guarded (Streamed S)
  with_stream g es = record { rows = (g.rows, es); locks = g.locks }

  -- the end of the stream whose handler did what a call of SyncWatcher did
  abbrev pub ended :
      Result Code SyncWatcherResponse × Guarded S
      → List Event
      → Result Code (Unit {0}) × Guarded (Streamed S)
  ended (ok resp, g) es =
      (ok tt, with_stream g ((es ++ log_event "sync complete" ∷ []) ++ result_event resp ∷ []))
  ended (err c, g) es = (err c, with_stream g es)

  refused :
      (c : Code) (g : Guarded S) (es : List Event)
      → (messages : List String) × (Path
          (Result Code (Unit {0}) × Guarded (Streamed S))
          (err c, with_stream g es)
          (err c, with_stream g (es ++ map log_event messages)))
  refused c g es = ([], ap (λ x. (err c, with_stream g x)) (sym (append-nil es)))

  -- Over a stream that takes every message, StreamSyncWatcher does to the database and to the locks
  -- what SyncWatcher does, and fails exactly where that fails and with the same code. Before it
  -- fails it sends log messages only. Where SyncWatcher answers, it sends log messages, then that
  -- the sync is complete, and then as its last message the answer of SyncWatcher.
  pub stream_sync_watcher-ended :
      (svc : WatcherService S) (name : String) (g : Guarded S) (es : List Event)
      → (messages : List String) × (stream_sync_watcher (streamed svc) name (with_stream g es)
          ≡ ended (sync_watcher svc name g) (es ++ map log_event messages))
  unfolding stream_sync_watcher sync_watcher
  stream_sync_watcher-ended svc name g es = elim (Bool-cases (name == "")) [
    | inl e ↦ rw e (refused invalid_argument g es)
    | inr e ↦ rw e (elim (outcome-cases (svc.watcher_repository.get_watcher_by_name name g.rows)) [
      | inl (w, s, a) ↦
          rw a (elim (outcome-cases (svc.machine_repository.get_machine_by_name w.machine_name s)) [
            | inl (machine, t, b) ↦ rw b (elim (Bool-cases (try_acquire_sync_lock name g.locks).0) [
              | inl free ↦
                  let (ms, p) = (run-Logs svc w machine false).sent t es in
                  (
                    ms,
                    rw free (
                        rw p
                          (elim (outcome-cases
                            (Sync.run svc.compile (quiet svc w machine) false t)) [
                              | inl (r, u, x) ↦ rw x refl
                              | inr (f, u, x) ↦ rw x refl
                            ])),
                  )
              | inr held ↦ rw held (
                  refused already_exists
                    (record { rows = t; locks = (try_acquire_sync_lock name g.locks).1 }) es)
            ])
            | inr (c, t, b) ↦ rw b (refused internal (record g { rows = t }) es)
          ])
      | inr (c, s, a) ↦ rw a (refused not_found (record g { rows = s }) es)
    ])
  ]
