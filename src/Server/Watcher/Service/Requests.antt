-- ===== src/Server/Watcher/Service/Requests.antt =====
-- server/watcher/service.go: the locks after SyncWatcher and StreamSyncWatcher.
use tiny_file_watcher.Prelude.{◌≡◌, refl, sym, ap, ◌∙◌, String, ◌==◌, Bool-cases, inl, inr}
use tiny_file_watcher.Server.Outcome.{Result, Exec, Code, outcome-cases, continue}
use tiny_file_watcher.Server.Database.{FileWatcher, Machine}
use tiny_file_watcher.Server.Watcher.Locks.{is_locked, try_acquire_sync_lock}
use tiny_file_watcher.Server.Watcher.Locks.Laws.{is_locked-release, is_locked-refused}
use tiny_file_watcher.Server.Watcher.Service.{
  WatcherService, Guarded, sync_watcher, stream_sync_watcher, watcher_and_machine, with_lock,
}

module _ {S : Type 0} where
  -- the locks are those of before
  abbrev Frees : {A : Type 0} → Guarded S → Result Code A × Guarded S → Type 0
  Frees g (r, g') = (k : String) → is_locked k g'.locks ≡ is_locked k g.locks

  with_lock-Frees :
      {A : Type 0} (name : String) (m : Exec Code S A) (g : Guarded S)
      → Frees g (with_lock name m g)
  with_lock-Frees name m g k = elim (Bool-cases (try_acquire_sync_lock name g.locks).0) [
    | inl e ↦ rw e (is_locked-release name k g.locks e)
    | inr e ↦ rw e (is_locked-refused name k g.locks e)
  ]

  watcher_and_machine-locks :
      (s : WatcherService S) (name : String) (g : Guarded S)
      → (watcher_and_machine s name g).1.locks ≡ g.locks
  watcher_and_machine-locks s name g = elim (Bool-cases (name == "")) [
    | inl e ↦ rw e refl
    | inr e ↦ rw e (elim (outcome-cases (s.watcher_repository.get_watcher_by_name name g.rows)) [
      | inl a ↦
          rw a.2
            (elim (outcome-cases (s.machine_repository.get_machine_by_name a.0.machine_name a.1)) [
              | inl b ↦ rw b.2 refl
              | inr b ↦ rw b.2 refl
            ])
      | inr a ↦ rw a.2 refl
    ])
  ]

  checked-Frees :
      {A : Type 0} (s : WatcherService S) (name : String)
      (m : FileWatcher × Machine → Exec Code S A) (g : Guarded S)
      → Frees g (continue (watcher_and_machine s name g) (λ p. with_lock name (m p)))
  checked-Frees s name m g k = elim (outcome-cases (watcher_and_machine s name g)) [
    | inl a ↦ rw a.2 (
        with_lock-Frees name (m a.0) a.1 k
        ∙ ap (is_locked k) (ap (λ x. x.1.locks) (sym a.2) ∙ watcher_and_machine-locks s name g))
    | inr a ↦
        rw a.2
          (ap (is_locked k) (ap (λ x. x.1.locks) (sym a.2) ∙ watcher_and_machine-locks s name g))
  ]

  -- SyncWatcher and StreamSyncWatcher, whether they succeed, are refused or fail at any step, over
  -- any repositories, machines and stream, leave every lock as they found it.
  pub sync-releases :
      (s : WatcherService S) (name : String) (g : Guarded S) (k : String)
      → (is_locked k (sync_watcher s name g).1.locks ≡ is_locked k g.locks)
        × (is_locked k (stream_sync_watcher s name g).1.locks ≡ is_locked k g.locks)
  unfolding sync_watcher stream_sync_watcher
  sync-releases s name g k = (checked-Frees s name _ g k, checked-Frees s name _ g k)
