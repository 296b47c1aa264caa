-- ===== src/Server/Watcher/Streaming.antt =====
-- server/watcher/service.go: StreamSyncWatcher beside SyncWatcher. The stream is a list to which each
-- message that is sent is added at its end.
pub mod Jobs
pub mod Ends
use mathlib.Core.List.{append-nil, append_assoc, map-append}
use tiny_file_watcher.Prelude.{◌≡◌, refl, sym, ap, ◌∙◌, String, List, [], ◌∷◌, ◌++◌, map, inl, inr}
use tiny_file_watcher.Server.Outcome.{
  Result, ok, err, Exec, outcome-cases, continue, lift, or_status, recode, ◌>>=◌,
}
use tiny_file_watcher.Server.Database.Repositories.{
  FileWatcherRepository, FileRepository, MachineRepository,
}
use tiny_file_watcher.Server.Watcher.Service.{WatcherService, Event, log_event}

-- the state with what was sent
abbrev pub Streamed : Type 0 → Type 0
Streamed S = S × List Event

pub sent-append :
    (es : List Event) (ms more : List String)
    → (es ++ map log_event ms) ++ map log_event more ≡ es ++ map log_event (ms ++ more)
sent-append es ms more =
    append_assoc es (map log_event ms) (map log_event more)
    ∙ ap (λ x. es ++ x) (sym (map-append log_event ms more))

module _ {S : Type 0} where
  abbrev on_state : {E A : Type 0} → Exec E S A → Exec E (Streamed S) A
  on_state m s = let (r, t) = m s.0 in (r, (t, s.1))

  abbrev pub send : Event → Exec (Unit {0}) (Streamed S) (Unit {0})
  send event s = (ok tt, (s.0, s.1 ++ event ∷ []))

  abbrev streamed_files : FileRepository S → FileRepository (Streamed S)
  streamed_files repo = record {
    add_watched_file = λ name path flushed. on_state (repo.add_watched_file name path flushed);
    bulk_add_watched_files =
        λ name paths flushed. on_state (repo.bulk_add_watched_files name paths flushed);
    remove_watched_file = λ name path. on_state (repo.remove_watched_file name path);
    bulk_remove_watched_files = λ name paths. on_state (repo.bulk_remove_watched_files name paths);
    flush_watched_files = λ ids. on_state (repo.flush_watched_files ids);
    list_watched_files = λ name. on_state (repo.list_watched_files name);
  }

  abbrev streamed_watchers : FileWatcherRepository S → FileWatcherRepository (Streamed S)
  streamed_watchers repo = record {
    create_watcher = λ name path machine. on_state (repo.create_watcher name path machine);
    get_watcher_by_id = λ id. on_state (repo.get_watcher_by_id id);
    get_watcher_by_name = λ name. on_state (repo.get_watcher_by_name name);
    list_watchers = on_state repo.list_watchers;
    list_watchers_by_machine = λ name. on_state (repo.list_watchers_by_machine name);
    update_watcher = λ id name path. on_state (repo.update_watcher id name path);
    delete_watcher = λ name. on_state (repo.delete_watcher name);
  }

  abbrev streamed_machines : MachineRepository S → MachineRepository (Streamed S)
  streamed_machines repo = record {
    create_machine = λ name ip port user key. on_state (repo.create_machine name ip port user key);
    get_machine_by_name = λ name. on_state (repo.get_machine_by_name name);
    list_machines = on_state repo.list_machines;
    update_machine = λ name ip port user key. on_state (repo.update_machine name ip port user key);
    delete_machine = λ name. on_state (repo.delete_machine name);
  }

  -- the service with a stream to its caller
  abbrev pub streamed : WatcherService S → WatcherService (Streamed S)
  streamed s = record {
    watcher_repository = streamed_watchers s.watcher_repository;
    file_repository = streamed_files s.file_repository;
    machine_repository = streamed_machines s.machine_repository;
    connect = s.connect;
    compile = s.compile;
    send = send;
  }

  -- the first call does what the second does and sends log messages besides
  pub record Logs {E A : Type 0} (m : Exec E (Streamed S) A) (n : Exec E S A) : Type 0 where
    pub sent :
        (s : S) (es : List Event)
        → (messages : List String) × (m (s, es)
            ≡ ((n s).0, ((n s).1, es ++ map log_event messages)))

  pub on_state-Logs : {E A : Type 0} (m : Exec E S A) → Logs (on_state m) m
  on_state-Logs m = record {
    sent = λ s es. ([], ap (λ x. ((m s).0, ((m s).1, x))) (sym (append-nil es)));
  }

  pub result-Logs : {E A : Type 0} (r : Result E A) → Logs (lift r) (lift r)
  result-Logs r = record { sent = λ s es. ([], ap (λ x. (r, (s, x))) (sym (append-nil es))) }

  pub or_status-Logs :
      {E F A : Type 0} (c : F) (m : Exec E (Streamed S) A) (n : Exec E S A)
      → Logs m n
      → Logs (or_status c m) (or_status c n)
  or_status-Logs c m n h = record {
    sent = λ s es. let (ms, e) = h.sent s es in (ms, ap (λ p. (recode c p.0, p.1)) e);
  }

  bind_sent :
      {E A B : Type 0} (m : Exec E (Streamed S) A) (n : Exec E S A) (f : A → Exec E (Streamed S) B)
      (g : A → Exec E S B) (s : S) (es : List Event)
      → (ms : List String) × (m (s, es) ≡ ((n s).0, ((n s).1, es ++ map log_event ms)))
      → ((a : A) (t : S) (fs : List Event)
          → (more : List String) × (f a (t, fs)
              ≡ ((g a t).0, ((g a t).1, fs ++ map log_event more))))
      → (ms : List String) × ((m >>= f) (s, es)
          ≡ (((n >>= g) s).0, (((n >>= g) s).1, es ++ map log_event ms)))
  bind_sent {E} {A} m n f g s es (ms, p) k =
      let with_log : Result E A × S → Result E A × Streamed S =
        λ x. (x.0, (x.1, es ++ map log_event ms)) in
      elim (outcome-cases (n s)) [
        | inl (a, t, e) ↦
            let (more, q) = k a t (es ++ map log_event ms) in
            (
              ms ++ more,
              ap (λ x. continue x f) (p ∙ ap with_log e)
                  ∙ q
                  ∙ ap (λ z. ((g a t).0, ((g a t).1, z))) (sent-append es ms more)
                  ∙ ap
                      (λ x.
                        ((continue x g).0, ((continue x g).1, es ++ map log_event (ms ++ more))))
                      (sym e),
            )
        | inr (x, t, e) ↦ (
          ms,
          ap (λ x. continue x f) (p ∙ ap with_log e)
              ∙ ap (λ x. ((continue x g).0, ((continue x g).1, es ++ map log_event ms))) (sym e),
        )
      ]

  pub bind-Logs :
      {E A B : Type 0} (m : Exec E (Streamed S) A) (n : Exec E S A) (f : A → Exec E (Streamed S) B)
      (g : A → Exec E S B)
      → Logs m n
      → ((a : A) → Logs (f a) (g a))
      → Logs (m >>= f) (n >>= g)
  bind-Logs m n f g h k = record {
    sent = λ s es. bind_sent m n f g s es (h.sent s es) (λ a. (k a).sent);
  }
