-- ===== src/Server/App/Dashboard.antt =====
-- server/web/watcher_handler.go: what the dashboard counts in the database.
use mathlib.Core.Path.{subst, ap₂}
use tiny_file_watcher.Prelude.{
  ℕ, ◌+◌, ◌≡◌, refl, ap, ◌∙◌, Option, none, some, String, Bool, true, false, not, ◌&&◌, List, [],
  ◌∷◌, map, ◌==◌, any, keep, length, All, All_mono, Distinct, string_comparable, any-map,
  length-map, if◌then◌else◌, Bool-cases, inl, inr, eq_iff, arith,
}
use tiny_file_watcher.Server.Database.{FileWatcher, WatchedRow, Db, has_redirection}
use tiny_file_watcher.Server.Database.Integrity.{IsConsistent}
use tiny_file_watcher.Server.Database.Pending.{unflushed, pending_row, list_pending_flushes_lem}
use tiny_file_watcher.Server.Database.Watchers
use tiny_file_watcher.Server.Watcher.Service.{to_proto, list_watchers}
use tiny_file_watcher.Server.Flush.Service.{PendingFile, pending_file, list_pending_files}
use tiny_file_watcher.Server.Web.Http.{page, dashboard}
use tiny_file_watcher.Server.Web.Services.{render}
use tiny_file_watcher.Server.Web.Watchers.{attempt, count_of, count_pending, handle_dashboard}
use tiny_file_watcher.Server.App.{World, Outside, services}

-- the sum over the names
unfoldable pub total : (String → ℕ) → List String → ℕ
total f [] = 0
total f (n ∷ ns) = f n + total f ns

module _ (live : String → Bool) where
  abbrev share : List WatchedRow → String → ℕ
  share fs n = if live n then length (unflushed n fs) else 0

  abbrev one : WatchedRow → String → ℕ
  one f n = if live n && (not f.flushed && f.watcher_name == n) then 1 else 0

  abbrev counted : WatchedRow → Bool
  counted f = not f.flushed && live f.watcher_name

  share-cons :
      (f : WatchedRow) (fs : List WatchedRow) (n : String) → share (f ∷ fs) n ≡ one f n + share fs n
  share-cons f fs n = ground arith

  total-cons :
      (f : WatchedRow) (fs : List WatchedRow) (ns : List String)
      → total (share (f ∷ fs)) ns ≡ total (one f) ns + total (share fs) ns
  unfolding total
  total-cons f fs [] = omega arith
  total-cons f fs (n ∷ ns) = omega (arith, share-cons f fs n, total-cons f fs ns)

  one-absent :
      (f : WatchedRow) (ns : List String)
      → any (λ n. n == f.watcher_name) ns ≡ false
      → total (one f) ns ≡ 0
  unfolding total
  one-absent f [] h = refl
  one-absent f (n ∷ ns) h =
      ground (arith, one-absent f ns, eq_iff f.watcher_name n, eq_iff n f.watcher_name)

  total-nothing : (ns : List String) → total (share []) ns ≡ 0
  unfolding total
  total-nothing [] = refl
  total-nothing (n ∷ ns) = ground (arith, total-nothing ns)

  one-present :
      (f : WatchedRow) (ns : List String)
      → Distinct ns
      → any (λ n. n == f.watcher_name) ns ≡ true
      → total (one f) ns ≡ (if counted f then 1 else 0)
  unfolding total
  one-present f [] d h = absurd (ground arith)
  one-present f (n ∷ ns) d h = elim (Bool-cases (n == f.watcher_name)) [
    | inl e ↦
        let p : n ≡ f.watcher_name = (eq_iff n f.watcher_name).0 e in
        let absent : any (λ m. m == f.watcher_name) ns ≡ false =
          subst (λ z. any (λ m. m == z) ns ≡ false) p d.0 in
        ground (arith, ap live p, eq_iff f.watcher_name n, p, one-absent f ns absent)
    | inr e ↦ ground (arith, one-present f ns d.1, eq_iff f.watcher_name n, eq_iff n f.watcher_name)
  ]

  keep-counted :
      (f : WatchedRow) (fs : List WatchedRow)
      → length (keep counted (f ∷ fs)) ≡ (if counted f then 1 else 0) + length (keep counted fs)
  keep-counted f fs = ground arith

  -- each file is counted at its watcher, and at no other
  pub total-share :
      (ns : List String) (fs : List WatchedRow)
      → Distinct ns
      → All (λ f. any (λ n. n == f.watcher_name) ns ≡ true) fs
      → total (share fs) ns ≡ length (keep counted fs)
  total-share ns [] d a = total-nothing ns
  total-share ns (f ∷ fs) d a = omega (
    arith,
    total-cons f fs ns,
    one-present f ns d a.0,
    total-share ns fs d a.1,
    keep-counted f fs,
  )

-- the watcher of each file is one of the names
watched :
    {db : Db}
    → IsConsistent db
    → All
        (λ f. any (λ n. n == f.watcher_name) (map (λ (x : FileWatcher). x.name) db.watchers) ≡ true)
        db.files
watched {db} c =
    All_mono _ _ db.files (λ f h. any-map (λ n. n == f.watcher_name) (λ x. x.name) db.watchers ∙ h)
      c.of_watcher

module _ {R : Type 0} (o : Outside R) (w : World R) (c : IsConsistent w.store.rows) where
  -- a watcher whose files the service lists
  abbrev pub live_in : String → Bool
  live_in n = has_redirection n w.store.rows.redirections && not (n == "")

  listed :
      (name : String)
      → (x : Option (List PendingFile)) × (attempt
            ((services o).flush_svc.list_pending_files name)
            w
          ≡ (x, w))
        × (count_of x ≡ share live_in w.store.rows.files name)
  unfolding list_pending_files
  listed name = elim (Bool-cases (name == "")) [
    | inl e ↦ (none, rw e refl, ground arith)
    | inr e ↦ elim (list_pending_flushes_lem name w.store.rows c) [
      | inl (h, fr, fw, m, tm, a, b, d, f, x) ↦ (
        some (map pending_file (map (pending_row fr m tm) (unflushed name w.store.rows.files))),
        rw e (rw x refl),
        rw (h, e) (length-map pending_file _ ∙ length-map (pending_row fr m tm) _),
      )
      | inr (h, x) ↦ (some [], rw e (rw x refl), rw h refl)
    ]
  ]

  count_pending-total :
      (ws : List FileWatcher)
      → count_pending (services o) (map to_proto ws) w
        ≡ (total (share live_in w.store.rows.files) (map (λ x. x.name) ws), w)
  unfolding count_pending total
  count_pending-total [] = refl
  count_pending-total (x ∷ ws) =
      let (n, e, k) = listed x.name in
      ap
        (λ p.
          let (rest, t) = count_pending (services o) (map to_proto ws) p.1 in
          (count_of p.0 + rest, t))
        e
      ∙ ap (λ p. (count_of n + p.0, p.1)) (count_pending-total ws)
      ∙ ap (λ k. (k + total (share live_in w.store.rows.files) (map (λ x. x.name) ws), w)) k

  -- In a consistent database the dashboard shows the number of watchers and, as pending, the number
  -- of files that are not flushed and whose watcher has a redirection and a name that is not empty;
  -- each file counts once. It changes nothing.
  pub handle_dashboard_lem : handle_dashboard (services o) w ≡ (
    page "index.html" (
        dashboard
          (length w.store.rows.watchers)
          (length (keep (λ f. not f.flushed && live_in f.watcher_name) w.store.rows.files))),
    w,
  )
  unfolding handle_dashboard list_watchers Watchers.list_watchers render
  handle_dashboard_lem =
      ap
        (λ (p : ℕ × World R).
          (page "index.html" (dashboard (length (map to_proto w.store.rows.watchers)) p.0), p.1))
        (count_pending-total w.store.rows.watchers)
      ∙ (ap₂ (λ x y. (page "index.html" (dashboard x y), w))
          (length-map to_proto w.store.rows.watchers)
          (total-share live_in _ w.store.rows.files c.watcher_names (watched c)))
