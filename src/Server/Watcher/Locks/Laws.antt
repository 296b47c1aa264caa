-- ===== src/Server/Watcher/Locks/Laws.antt =====
-- server/watcher/service.go: the operations on the map `syncLocks` seen through `is_locked`.
use tiny_file_watcher.Prelude.{
  ◌≡◌, sym, ap, ◌∙◌, String, Bool, true, false, ◌&&◌, [], ◌∷◌, ◌==◌, any, arith, eq_iff, eq_refl,
  if◌then◌else◌, string_comparable,
}
use tiny_file_watcher.Server.Watcher.Locks.{
  LockTable, is_locked, is_entry, load_or_store, set_lock, try_acquire_sync_lock,
}

pub is_locked-load :
    (name k : String) (t : LockTable) → is_locked k (load_or_store name t) ≡ is_locked k t
unfolding load_or_store
is_locked-load name k t = ground arith

pub has_entry-load :
    (name : String) (t : LockTable) → any (is_entry name) (load_or_store name t) ≡ true
unfolding load_or_store
has_entry-load name t = ground (arith, eq_refl name)

-- a lock that is set is that of its name alone
pub is_locked-set :
    (name k : String) (b : Bool) (t : LockTable)
    → is_locked k (set_lock name b t)
      ≡ (if name == k then b && any (is_entry name) t else is_locked k t)
unfolding set_lock
is_locked-set name k b [] = ground arith
is_locked-set name k b ((x, c) ∷ t) =
    let transitive : x == name ≡ true → x == k ≡ (name == k) =
      λ e. ap (λ z. z == k) ((eq_iff x name).0 e) in
    let symmetric : x == k ≡ true → name == k ≡ true → x == name ≡ true =
      λ e f. (eq_iff x name).1 ((eq_iff x k).0 e ∙ sym ((eq_iff name k).0 f)) in
    ground (arith, transitive, symmetric, is_locked-set name k b t)

-- a lock that is got and given back leaves the table as it was, and so does one that is not got
pub is_locked-release :
    (name k : String) (t : LockTable)
    → (try_acquire_sync_lock name t).0 ≡ true
    → is_locked k (set_lock name false (try_acquire_sync_lock name t).1) ≡ is_locked k t
unfolding try_acquire_sync_lock
is_locked-release name k t h =
    let same : name == k ≡ true → is_locked name t ≡ is_locked k t =
      λ e. ap (λ z. is_locked z t) ((eq_iff name k).0 e) in
    ground (
      arith,
      same,
      is_locked-load name k t,
      is_locked-load name name t,
      is_locked-set name k false (set_lock name true (load_or_store name t)),
      is_locked-set name k true (load_or_store name t),
    )

pub is_locked-refused :
    (name k : String) (t : LockTable)
    → (try_acquire_sync_lock name t).0 ≡ false
    → is_locked k (try_acquire_sync_lock name t).1 ≡ is_locked k t
unfolding try_acquire_sync_lock
is_locked-refused name k t h = ground (arith, is_locked-load name k t, is_locked-load name name t)
