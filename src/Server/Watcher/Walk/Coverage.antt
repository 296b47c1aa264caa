-- ===== src/Server/Watcher/Walk/Coverage.antt =====
-- server/watcher/sync.go: the sets that the walk fills.
use mathlib.Core.Option.{some-injective}
use mathlib.Core.Path.{subst}
use tiny_file_watcher.Prelude.{
  ℕ, zero, suc, ◌+◌, ◌≡◌, ap, ◌∙◌, String, true, not, ◌&&◌, some, List, [], ◌∷◌, ◌++◌, any, length,
  arith, Bool-cases, Bool_ext, inl, inr, string_comparable,
}
use tiny_file_watcher.Internal.Set.{contains}
use tiny_file_watcher.Internal.Set.Laws.{contains-new_set}
use tiny_file_watcher.Internal.Set.Valid.{IsValid, add-IsValid, new_set-IsValid}
use tiny_file_watcher.Server.Watcher.Walk.{
  Visit, failed, dir, file, Walk, Job, is_ignored, process_file, enqueue_subdir, drain_walker,
  walk_queue, handle_current_paths, start,
}
use tiny_file_watcher.Server.Watcher.Walk.Tree.{IsTree}
use tiny_file_watcher.Server.Watcher.Walk.Terminates.{handle_current_paths-total, Covers-refl}
use tiny_file_watcher.Server.Watcher.Walk.Sets.{
  accepts, enqueue_added, walk_queue-Splits, walk_queue_first, start-Splits, walk_queue_sound,
}

below_source :
    (j : Job) (r : Walk) (p : String)
    → IsTree j.rfs j.source_path
    → handle_current_paths j ≡ some r
    → contains r.on_disk p ≡ true
    → any (accepts j p) (j.rfs.walk j.source_path) ≡ true
unfolding handle_current_paths
below_source j r p t e h =
    let all = j.rfs.walk j.source_path in
    let below =
      walk_queue_sound j all (length j.rfs.dirs + 1) (all ∷ []) (start j) r p
        (λ d m. (t.covers d m, t.listed d m)) (Covers-refl all, tt) e h in
    ground (arith, contains-new_set {A = String} p)

-- On a tree the walk ends, in spite of the repeated walkers it puts on disk exactly the files that
-- the walker of the source path shows and the rules let through, and it takes as new exactly those
-- of them that are not tracked.
pub handle_current_paths_lem :
    (j : Job)
    → IsTree j.rfs j.source_path
    → (r : Walk) × (handle_current_paths j ≡ some r)
      × ((p : String) → contains r.on_disk p ≡ any (accepts j p) (j.rfs.walk j.source_path))
      × ((p : String)
          → contains r.added p
            ≡ any (accepts j p) (j.rfs.walk j.source_path) && not (contains j.watched p))
unfolding handle_current_paths walk_queue
handle_current_paths_lem j t =
    let all = j.rfs.walk j.source_path in
    let fuel = length j.rfs.dirs + 1 in
    let (r, e) = handle_current_paths-total j t in
    let disk : (p : String) → contains r.on_disk p ≡ any (accepts j p) all = λ p.
      Bool_ext _ _ (λ h. below_source j r p t e h)
        (λ h. walk_queue_first j fuel all [] (start j) r p e h) in
    (
      r,
      e,
      disk,
      λ p.
          walk_queue-Splits j fuel (all ∷ []) (start j) r (start-Splits j) e p
          ∙ ap (λ b. b && not (contains j.watched p)) (disk p),
    )

-- each set counts its members
module _ (j : Job) where
  process_file-IsValid :
      (path name : String) (w : Walk) → IsValid w.added → IsValid (process_file j path name w).added
  unfolding process_file
  process_file-IsValid path name w v = elim (Bool-cases (is_ignored j path name)) [
    | inl e ↦ rw e v
    | inr e ↦ elim (Bool-cases (contains j.watched path)) [
      | inl t ↦ rw (e, t) v
      | inr t ↦ rw (e, t) (add-IsValid w.added path v)
    ]
  ]

  drain-IsValid :
      (vs : List Visit) (w : Walk) → IsValid w.added → IsValid (drain_walker j vs w).0.added
  unfolding drain_walker
  drain-IsValid [] w v = v
  drain-IsValid (failed path ∷ vs) w v = drain-IsValid vs w v
  drain-IsValid (file path name ∷ vs) w v =
      drain-IsValid vs (process_file j path name w) (process_file-IsValid path name w v)
  drain-IsValid (dir d ∷ vs) w v =
      drain-IsValid vs (enqueue_subdir j d w).0 (rw (enqueue_added j d w) v)

  walk_queue-IsValid :
      (fuel : ℕ) (queue : List (List Visit)) (w r : Walk)
      → IsValid w.added
      → walk_queue fuel j queue w ≡ some r
      → IsValid r.added
  unfolding walk_queue
  walk_queue-IsValid fuel [] w r v e =
      subst (λ (x : Walk). IsValid x.added) (some-injective _ _ e) v
  walk_queue-IsValid zero (x ∷ queue) w r v e = cc
  walk_queue-IsValid (suc fuel) (x ∷ queue) w r v e =
      walk_queue-IsValid fuel (queue ++ (drain_walker j x w).1) (drain_walker j x w).0 r
        (drain-IsValid x w v) e

  pub handle_current_paths-IsValid : (r : Walk) → handle_current_paths j ≡ some r → IsValid r.added
  unfolding handle_current_paths
  handle_current_paths-IsValid r e =
      walk_queue-IsValid (length j.rfs.dirs + 1) (j.rfs.walk j.source_path ∷ []) (start j) r
        new_set-IsValid e
