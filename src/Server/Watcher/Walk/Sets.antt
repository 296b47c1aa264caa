-- ===== src/Server/Watcher/Walk/Sets.antt =====
-- server/watcher/sync.go: what one walker and the queue of walkers add to the sets of a walk.
use mathlib.Core.Option.{some-injective}
use mathlib.Core.Path.{subst}
use tiny_file_watcher.Prelude.{
  ℕ, zero, suc, ◌≡◌, refl, ap, ◌∙◌, String, Bool, true, false, not, ◌&&◌, ◌||◌, some, List, [], ◌∷◌,
  ◌++◌, ◌==◌, any, any_mono, All, All-append, arith, eq_iff, eq_refl, Bool-cases, inl, inr,
  string_comparable,
}
use tiny_file_watcher.Internal.Set.{contains}
use tiny_file_watcher.Internal.Set.Laws.{contains-add, contains-new_set}
use tiny_file_watcher.Server.Watcher.Walk.{
  Visit, failed, dir, file, Walk, Job, is_ignored, process_file, enqueue_subdir, drain_walker,
  walk_queue, start,
}
use tiny_file_watcher.Server.Watcher.Walk.Tree.{is_file, Covers}
use tiny_file_watcher.Server.Watcher.Walk.Terminates.{Closed, drain-Covers}

-- the entry is a file of that path that the rules let through
abbrev pub accepts : Job → String → Visit → Bool
accepts j p (file path name) = path == p && not (is_ignored j path name)
accepts j p (failed path) = false
accepts j p (dir path) = false

module _ (j : Job) where
  pub enqueue_on_disk : (d : String) (w : Walk) → (enqueue_subdir j d w).0.on_disk ≡ w.on_disk
  unfolding enqueue_subdir
  enqueue_on_disk d w = ground arith

  pub enqueue_added : (d : String) (w : Walk) → (enqueue_subdir j d w).0.added ≡ w.added
  unfolding enqueue_subdir
  enqueue_added d w = ground arith

  pub process_file-on_disk :
      (path name p : String) (w : Walk)
      → contains (process_file j path name w).on_disk p
        ≡ accepts j p (file path name) || contains w.on_disk p
  unfolding process_file
  process_file-on_disk path name p w = ground (arith, contains-add w.on_disk path p)

  pub drain-on_disk :
      (p : String) (vs : List Visit) (w : Walk)
      → contains (drain_walker j vs w).0.on_disk p ≡ any (accepts j p) vs || contains w.on_disk p
  unfolding drain_walker
  drain-on_disk p [] w = refl
  drain-on_disk p (failed path ∷ vs) w = drain-on_disk p vs w
  drain-on_disk p (file path name ∷ vs) w =
      ground
        (arith, drain-on_disk p vs (process_file j path name w), process_file-on_disk path name p w)
  drain-on_disk p (dir d ∷ vs) w =
      drain-on_disk p vs (enqueue_subdir j d w).0
      ∙ ap (λ s. any (accepts j p) vs || contains s p) (enqueue_on_disk d w)

  -- among the files on disk the new ones are those that are not tracked
  abbrev pub Splits : Walk → Type 0
  Splits w = (p : String) → contains w.added p ≡ contains w.on_disk p && not (contains j.watched p)

  pub process_file-Splits :
      (path name : String) (w : Walk) → Splits w → Splits (process_file j path name w)
  unfolding process_file
  process_file-Splits path name w h p = elim (Bool-cases (path == p)) [
    | inl e ↦
        rw ((eq_iff path p).0 e)
          (ground (arith, h p, contains-add w.on_disk p p, contains-add w.added p p))
    | inr e ↦ ground (arith, h p, contains-add w.on_disk path p, contains-add w.added path p)
  ]

  pub drain-Splits : (vs : List Visit) (w : Walk) → Splits w → Splits (drain_walker j vs w).0
  unfolding drain_walker
  drain-Splits [] w h = h
  drain-Splits (failed path ∷ vs) w h = drain-Splits vs w h
  drain-Splits (file path name ∷ vs) w h =
      drain-Splits vs (process_file j path name w) (process_file-Splits path name w h)
  drain-Splits (dir d ∷ vs) w h =
      drain-Splits vs (enqueue_subdir j d w).0
        (λ p. rw (enqueue_added d w, enqueue_on_disk d w) (h p))

  -- an accepted path is that of a file that is not ignored
  pub accepted_file :
      (p : String) (vs : List Visit)
      → any (accepts j p) vs ≡ true
      → (n : String) × (any (is_file p n) vs ≡ true) × (is_ignored j p n ≡ false)
  accepted_file p [] h = absurd (ground arith)
  accepted_file p (failed path ∷ vs) h = accepted_file p vs h
  accepted_file p (dir path ∷ vs) h = accepted_file p vs h
  accepted_file p (file path name ∷ vs) h = elim (Bool-cases (accepts j p (file path name))) [
    | inl e ↦
        let same : path ≡ p = (eq_iff path p).0 (ground arith) in
        (
          name,
          ground (arith, eq_refl name),
          subst (λ q. is_ignored j q name ≡ false) same (ground arith),
        )
    | inr e ↦ let (n, m, g) = accepted_file p vs (ground arith) in (n, ground arith, g)
  ]

  pub file_accepted :
      (p n : String) (v : Visit)
      → is_ignored j p n ≡ false
      → is_file p n v ≡ true
      → accepts j p v ≡ true
  file_accepted p n (failed path) g h = h
  file_accepted p n (dir path) g h = absurd (ground arith)
  file_accepted p n (file path name) g h =
      let same : path ≡ p = (eq_iff path p).0 (ground arith) in
      let same_name : name ≡ n = (eq_iff name n).0 (ground arith) in
      rw (same, same_name) (rw g (ground (arith, eq_refl p)))

  -- a walker below the source path accepts nothing that the source's own does not
  pub accepts-Covers :
      (p : String) (all vs : List Visit)
      → Covers all vs
      → any (accepts j p) vs ≡ true
      → any (accepts j p) all ≡ true
  accepts-Covers p all vs c h =
      let (n, m, g) = accepted_file p vs h in
      any_mono (is_file p n) (accepts j p) all (λ v. file_accepted p n v g) (c.files p n m)

  pub walk_queue-Splits :
      (fuel : ℕ) (queue : List (List Visit)) (w r : Walk)
      → Splits w
      → walk_queue fuel j queue w ≡ some r
      → Splits r
  unfolding walk_queue
  walk_queue-Splits fuel [] w r h e = subst Splits (some-injective _ _ e) h
  walk_queue-Splits zero (v ∷ queue) w r h e = cc
  walk_queue-Splits (suc fuel) (v ∷ queue) w r h e =
      walk_queue-Splits fuel (queue ++ (drain_walker j v w).1) (drain_walker j v w).0 r
        (drain-Splits v w h) e

  -- what is on disk stays so
  pub walk_queue_mono :
      (fuel : ℕ) (queue : List (List Visit)) (w r : Walk) (p : String)
      → walk_queue fuel j queue w ≡ some r
      → contains w.on_disk p ≡ true
      → contains r.on_disk p ≡ true
  unfolding walk_queue
  walk_queue_mono fuel [] w r p e h =
      subst (λ (x : Walk). contains x.on_disk p ≡ true) (some-injective _ _ e) h
  walk_queue_mono zero (v ∷ queue) w r p e h = cc
  walk_queue_mono (suc fuel) (v ∷ queue) w r p e h =
      walk_queue_mono fuel (queue ++ (drain_walker j v w).1) (drain_walker j v w).0 r p e
        (ground (arith, drain-on_disk p v w))

  -- and so does what the first walker shows
  pub walk_queue_first :
      (fuel : ℕ) (v : List Visit) (queue : List (List Visit)) (w r : Walk) (p : String)
      → walk_queue fuel j (v ∷ queue) w ≡ some r
      → any (accepts j p) v ≡ true
      → contains r.on_disk p ≡ true
  unfolding walk_queue
  walk_queue_first zero v queue w r p e h = cc
  walk_queue_first (suc fuel) v queue w r p e h =
      walk_queue_mono fuel (queue ++ (drain_walker j v w).1) (drain_walker j v w).0 r p e
        (ground (arith, drain-on_disk p v w))

  pub start-Splits : Splits (start j)
  start-Splits p = ground (arith, contains-new_set {A = String} p)

  pub walk_queue_sound :
      (all : List Visit) (fuel : ℕ) (queue : List (List Visit)) (w r : Walk) (p : String)
      → Closed j all
      → All (Covers all) queue
      → walk_queue fuel j queue w ≡ some r
      → contains r.on_disk p ≡ true
      → any (accepts j p) all || contains w.on_disk p ≡ true
  unfolding walk_queue
  walk_queue_sound all fuel [] w r p c q e h =
      ground (arith, ap (λ (x : Walk). contains x.on_disk p) (some-injective _ _ e))
  walk_queue_sound all zero (v ∷ queue) w r p c q e h = cc
  walk_queue_sound all (suc fuel) (v ∷ queue) w r p c q e h =
      let later =
        walk_queue_sound all fuel (queue ++ (drain_walker j v w).1) (drain_walker j v w).0 r p c
          (All-append (Covers all) queue _ q.1 (drain-Covers j all v w c q.0.dirs)) e h in
      ground (arith, later, drain-on_disk p v w, accepts-Covers p all v q.0)
