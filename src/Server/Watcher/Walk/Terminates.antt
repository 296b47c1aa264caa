-- ===== src/Server/Watcher/Walk/Terminates.antt =====
-- server/watcher/sync.go: the length of the queue of walkers.
use tiny_file_watcher.Prelude.{
  ℕ, zero, suc, ◌+◌, ◌≤◌, ◌≡◌, refl, ap, String, true, false, not, some, List, [], ◌∷◌, ◌++◌, ◌==◌,
  any, keep, All, All-append, length, length-append, length-keep-le, arith, eq_iff, eq_refl,
  Bool-cases, inl, inr, string_comparable,
}
use tiny_file_watcher.Internal.Set.{Set, contains, add}
use tiny_file_watcher.Internal.Set.Laws.{contains-add}
use tiny_file_watcher.Server.Watcher.Walk.{
  Visit, failed, dir, file, Walk, Job, process_file, enqueue_subdir, drain_walker, walk_queue,
  handle_current_paths, start,
}
use tiny_file_watcher.Server.Watcher.Walk.Tree.{is_dir, Covers, IsTree}

-- the directories that have not been queued yet
abbrev unseen : List String → Set String → ℕ
unseen ds analyzed = length (keep (λ d. not (contains analyzed d)) ds)

unseen-add_le : (ds : List String) (a : Set String) (d : String) → unseen ds (add a d) ≤ unseen ds a
unseen-add_le [] a d = omega arith
unseen-add_le (x ∷ ds) a d = ground (arith, contains-add a d x, unseen-add_le ds a d)

unseen-add_lt :
    (ds : List String) (a : Set String) (d : String)
    → any (λ x. x == d) ds ≡ true
    → contains a d ≡ false
    → unseen ds (add a d) + 1 ≤ unseen ds a
unseen-add_lt [] a d m h = absurd (ground arith)
unseen-add_lt (x ∷ ds) a d m h = elim (Bool-cases (x == d)) [
  | inl e ↦
      rw ((eq_iff x d).0 e) (ground (arith, contains-add a d d, eq_refl d, unseen-add_le ds a d))
  | inr e ↦ ground (arith, contains-add a d x, unseen-add_lt ds a d)
]

process_file-analyzed :
    (j : Job) (p n : String) (w : Walk) → (process_file j p n w).analyzed ≡ w.analyzed
unfolding process_file
process_file-analyzed j p n w = ground arith

dir_here : (d : String) (vs : List Visit) → any (is_dir d) (dir d ∷ vs) ≡ true
dir_here d vs = ground (arith, eq_refl d)

dir_later :
    (e d : String) (vs : List Visit) → any (is_dir e) vs ≡ true → any (is_dir e) (dir d ∷ vs) ≡ true
dir_later e d vs h = ground arith

module _ (j : Job) (all : List Visit) where
  abbrev pub ds : List String
  ds = j.rfs.dirs

  -- what the walk relies on, for the walker of the source path
  abbrev pub Closed : Type 0
  Closed =
      (d : String)
      → any (is_dir d) all ≡ true
      → Covers all (j.rfs.walk d) × (any (λ x. x == d) ds ≡ true)

  abbrev pub DirsIn : List Visit → Type 0
  DirsIn vs = (d : String) → any (is_dir d) vs ≡ true → any (is_dir d) all ≡ true

  -- a drained walker queues at most as many walkers as it marks directories
  drain-unseen :
      (vs : List Visit) (w : Walk)
      → Closed
      → DirsIn vs
      → unseen ds (drain_walker j vs w).0.analyzed + length (drain_walker j vs w).1
        ≤ unseen ds w.analyzed
  unfolding drain_walker
  drain-unseen [] w c sub = omega arith
  drain-unseen (failed p ∷ vs) w c sub = drain-unseen vs w c sub
  drain-unseen (file p n ∷ vs) w c sub = omega (
    arith,
    drain-unseen vs (process_file j p n w) c sub,
    ap (unseen ds) (process_file-analyzed j p n w),
  )
  drain-unseen (dir d ∷ vs) w c sub =
      let sub' : DirsIn vs = λ e m. sub e (dir_later e d vs m) in
      elim (Bool-cases (contains w.analyzed d)) [
        | inl old ↦ rw (old, enqueue_subdir) (drain-unseen vs w c sub')
        | inr new ↦
            rw (new, enqueue_subdir)
              (omega (
                arith,
                drain-unseen vs (record w { analyzed = add w.analyzed d }) c sub',
                unseen-add_lt ds w.analyzed d (c d (sub d (dir_here d vs))).1 new,
              ))
      ]

  -- and what they show is below the source path
  pub drain-Covers :
      (vs : List Visit) (w : Walk) → Closed → DirsIn vs → All (Covers all) (drain_walker j vs w).1
  unfolding drain_walker
  drain-Covers [] w c sub = tt
  drain-Covers (failed p ∷ vs) w c sub = drain-Covers vs w c sub
  drain-Covers (file p n ∷ vs) w c sub = drain-Covers vs (process_file j p n w) c sub
  drain-Covers (dir d ∷ vs) w c sub =
      let sub' : DirsIn vs = λ e m. sub e (dir_later e d vs m) in
      elim (Bool-cases (contains w.analyzed d)) [
        | inl old ↦ rw (old, enqueue_subdir) (drain-Covers vs w c sub')
        | inr new ↦
            rw (new, enqueue_subdir)
              (
                (c d (sub d (dir_here d vs))).0,
                drain-Covers vs (record w { analyzed = add w.analyzed d }) c sub',
              )
      ]

  pub walk_queue-total :
      (fuel : ℕ) (queue : List (List Visit)) (w : Walk)
      → Closed
      → All (Covers all) queue
      → unseen ds w.analyzed + length queue ≤ fuel
      → (r : Walk) × (walk_queue fuel j queue w ≡ some r)
  unfolding walk_queue
  walk_queue-total fuel [] w c q h = (w, refl)
  walk_queue-total zero (v ∷ queue) w c q h = absurd (omega arith)
  walk_queue-total (suc fuel) (v ∷ queue) w c q h =
      let w' = (drain_walker j v w).0 in
      let walkers = (drain_walker j v w).1 in
      walk_queue-total fuel (queue ++ walkers) w' c
        (All-append (Covers all) queue walkers q.1 (drain-Covers v w c q.0.dirs))
        (omega (arith, drain-unseen v w c q.0.dirs, length-append queue walkers))

pub Covers-refl : (vs : List Visit) → Covers vs vs
Covers-refl vs = record { files = λ p n h. h; dirs = λ d h. h }

-- With as much fuel as there are directories, and one more, the walk ends.
pub handle_current_paths-total :
    (j : Job) → IsTree j.rfs j.source_path → (r : Walk) × (handle_current_paths j ≡ some r)
unfolding handle_current_paths
handle_current_paths-total j t =
    walk_queue-total j (j.rfs.walk j.source_path) (length j.rfs.dirs + 1)
      (j.rfs.walk j.source_path ∷ []) (start j) (λ d m. (t.covers d m, t.listed d m))
      (Covers-refl _, tt)
      (omega (arith, length-keep-le (λ d. not (contains (start j).analyzed d)) j.rfs.dirs))
