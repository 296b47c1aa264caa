-- ===== src/Server/Watcher/Locks/Exclusion.antt =====
-- server/watcher/service.go: SyncWatcher and StreamSyncWatcher as steps that
-- interleave in any order.
use tiny_file_watcher.Prelude.{
  ◌≤◌, nat_eq, ℕ, ◌+◌, ◌≡◌, refl, ap, ◌∙◌, String, Bool, true, false, List, [], ◌∷◌, ◌++◌, ◌==◌,
  arith, Bool-cases, inl, inr, eq_iff, eq_refl, if◌then◌else◌, string_comparable,
}
use tiny_file_watcher.Server.Watcher.Locks.{
  LockTable, is_locked, load_or_store, set_lock, try_acquire_sync_lock,
}
use tiny_file_watcher.Server.Watcher.Locks.Laws.{is_locked-load, has_entry-load, is_locked-set}

-- where a handler stands: inside its job, turned away, returned
pub data Phase : Type 0 where
  syncing refused finished : Phase

pub record System : Type 0 where
  pub locks : LockTable
  pub requests : List (String × Phase)

abbrev pub started : Bool → Phase
started true = syncing
started false = refused

-- a handler calls tryAcquireSyncLock
abbrev pub arrive : String → System → System
arrive name s =
    let (acquired, t) = try_acquire_sync_lock name s.locks in
    record { locks = t; requests = (name, started acquired) ∷ s.requests }

-- a handler returns, and runs the deferred unlock
abbrev pub leave : String → List (String × Phase) → List (String × Phase) → System → System
leave name before after s = record {
  locks = set_lock name false s.locks;
  requests = before ++ (name, finished) ∷ after;
}

-- the handlers' steps, in any order
pub data Reachable : System → Type 0 where
  start : Reachable (record { locks = []; requests = [] })
  arrives : (s : System) (name : String) → Reachable s → Reachable (arrive name s)
  leaves :
      (s : System) (name : String) (before after : List (String × Phase))
      → Reachable s
      → s.requests ≡ before ++ (name, syncing) ∷ after
      → Reachable (leave name before after s)

abbrev one_running : String → String × Phase → ℕ
one_running k (name, syncing) = if name == k then 1 else 0
one_running k (name, refused) = 0
one_running k (name, finished) = 0

-- how many jobs of that watcher run
abbrev pub running : String → List (String × Phase) → ℕ
running k [] = 0
running k (r ∷ rs) = one_running k r + running k rs

abbrev bit : Bool → ℕ
bit true = 1
bit false = 0

running-append :
    (k : String) (rs qs : List (String × Phase))
    → running k (rs ++ qs) ≡ running k rs + running k qs
running-append k [] qs = omega arith
running-append k (r ∷ rs) qs = omega (arith, running-append k rs qs)

acquire-locks :
    (name k : String) (t : LockTable)
    → bit (is_locked k (try_acquire_sync_lock name t).1)
      ≡ one_running k (name, started (try_acquire_sync_lock name t).0) + bit (is_locked k t)
unfolding try_acquire_sync_lock
acquire-locks name k t = elim (Bool-cases (is_locked name t)) [
  | inl e ↦ ground (arith, is_locked-load name name t, is_locked-load name k t)
  | inr e ↦ elim (Bool-cases (name == k)) [
    | inl f ↦ rw ((eq_iff name k).0 f) (
        ground (
          arith,
          eq_refl k,
          is_locked-load k k t,
          has_entry-load k t,
          is_locked-set k k true (load_or_store k t),
          ap (λ z. is_locked z t) ((eq_iff name k).0 f),
        ))
    | inr f ↦ ground (
      arith,
      is_locked-load name name t,
      is_locked-load name k t,
      is_locked-set name k true (load_or_store name t),
    )
  ]
]

running-is_locked :
    (s : System) (k : String) → Reachable s → running k s.requests ≡ bit (is_locked k s.locks)
running-is_locked s k start = refl
running-is_locked s k (arrives before name r) =
    omega (arith, running-is_locked before k r, acquire-locks name k before.locks)
running-is_locked s k (leaves was name before after r e) =
    let here = running-is_locked was k r in
    let counted = ap (running k) e ∙ running-append k before ((name, syncing) ∷ after) in
    ground (
      arith,
      here,
      counted,
      running-append k before ((name, finished) ∷ after),
      is_locked-set name k false was.locks,
    )

-- Whatever the order in which handlers arrive and return: of each watcher at most one sync runs, and
-- a handler that arrives gets the lock exactly if none of its watcher runs, so that a sync that
-- returned never keeps later ones out.
pub Reachable-excludes :
    (s : System) (k : String)
    → Reachable s
    → (running k s.requests ≤ 1)
      × ((try_acquire_sync_lock k s.locks).0 ≡ nat_eq (running k s.requests) 0)
unfolding try_acquire_sync_lock
Reachable-excludes s k r =
    let e = running-is_locked s k r in
    (ground (arith, e), ground (arith, e, is_locked-load k k s.locks))
