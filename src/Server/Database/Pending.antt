-- ===== src/Server/Database/Pending.antt =====
-- The view pending_file_flushes of server/database/schema.sql.
use mathlib.Core.Path.{subst}
use tiny_file_watcher.Prelude.{
  ◌⊎◌, All_of, ◌≡◌, refl, sym, ap, ◌∙◌, String, Bool, true, false, not, ◌&&◌, List, [], ◌∷◌, map,
  ◌==◌, any, keep, All, Distinct, any-map, arith, Bool-cases, inl, inr, eq_iff, string_comparable,
  nat_comparable,
}
use tiny_file_watcher.Server.Outcome.{ok}
use tiny_file_watcher.Server.Database.{
  Machine, FileWatcher, WatchedRow, FileRedirection, Db, has_watcher, has_redirection,
}
use tiny_file_watcher.Server.Database.Files.{
  PendingFlush, collect, pending_of, list_pending_flushes,
}
use tiny_file_watcher.Server.Database.Integrity.{IsConsistent}

keep-none : {A : Type 0} (p : A → Bool) (xs : List A) → any p xs ≡ false → keep p xs ≡ []
keep-none p [] h = refl
keep-none p (x ∷ xs) h = ground (arith, keep-none p xs)

-- a key that is there picks one row
unique_row :
    {R : Type 0} (key : R → String) (P : R → Type 0) (k : String) (rs : List R)
    → Distinct (map key rs)
    → All P rs
    → any (λ r. key r == k) rs ≡ true
    → (r : R) × (keep (λ r. key r == k) rs ≡ r ∷ []) × (key r ≡ k) × P r
unique_row key P k [] d h e = absurd (ground arith)
unique_row key P k (r ∷ rs) d h e = elim (Bool-cases (key r == k)) [
  | inl here ↦
      let none : any (λ r. key r == k) rs ≡ false =
        subst (λ z. any (λ r. key r == z) rs ≡ false) ((eq_iff (key r) k).0 here)
          (sym (any-map _ key rs) ∙ d.0) in
      (r, rw here (ap (◌∷◌ r) (keep-none _ rs none)), (eq_iff (key r) k).0 here, h.0)
  | inr there ↦ rw there (unique_row key P k rs d.1 h.1 (ground arith))
]

-- the row of the view for one file
abbrev pub pending_row : FileRedirection → Machine → Machine → WatchedRow → PendingFlush
pending_row fr m tm wf = record {
  watched_file_id = wf.id;
  watcher_name = wf.watcher_name;
  file_path = wf.file_path;
  file_name = wf.file_name;
  target_path = fr.target_path;
  machine = m;
  target_machine = tm;
}

abbrev pub unflushed : String → List WatchedRow → List WatchedRow
unflushed name fs = keep (λ f. not f.flushed && f.watcher_name == name) fs

collect-single :
    {A B : Type 0} (f : A → List B) (g : A → B) (P : A → Type 0) (xs : List A)
    → ((a : A) → P a → f a ≡ g a ∷ [])
    → All P xs
    → collect f xs ≡ map g xs
collect-single f g P [] h p = refl
collect-single f g P (x ∷ xs) h p = rw (h x p.0) (ap (◌∷◌ (g x)) (collect-single f g P xs h p.1))

collect-empty :
    {A B : Type 0} (f : A → List B) (P : A → Type 0) (xs : List A)
    → ((a : A) → P a → f a ≡ [])
    → All P xs
    → collect f xs ≡ []
collect-empty f P [] h p = refl
collect-empty f P (x ∷ xs) h p = rw (h x p.0) (collect-empty f P xs h p.1)

unflushed-mine :
    (name : String) (fs : List WatchedRow) → All (λ f. f.watcher_name ≡ name) (unflushed name fs)
unflushed-mine name [] = tt
unflushed-mine name (f ∷ fs) = elim (Bool-cases (not f.flushed && f.watcher_name == name)) [
  | inl e ↦ rw e ((eq_iff f.watcher_name name).0 (ground arith), unflushed-mine name fs)
  | inr e ↦ rw e (unflushed-mine name fs)
]

pending_of_row :
    (db : Db) (fr : FileRedirection) (fw : FileWatcher) (m tm : Machine) (wf : WatchedRow)
    → keep (λ (r : FileRedirection). r.watcher_name == wf.watcher_name) db.redirections ≡ fr ∷ []
    → keep (λ (x : FileWatcher). x.name == wf.watcher_name) db.watchers ≡ fw ∷ []
    → keep (λ (x : Machine). x.name == fw.machine_name) db.machines ≡ m ∷ []
    → keep (λ (x : Machine). x.name == fr.target_machine_name) db.machines ≡ tm ∷ []
    → pending_of db wf ≡ pending_row fr m tm wf ∷ []
unfolding pending_of
pending_of_row db fr fw m tm wf r w s t = rw r (rw w (rw s (rw t refl)))

-- In a consistent database a watcher without a redirection has nothing pending. With one, the
-- redirection, the watcher, its machine and the target machine are each the only row of that name,
-- and what is pending are the watcher's unflushed files, each once and in their order, with the
-- columns of those rows.
pub list_pending_flushes_lem :
    (name : String) (db : Db)
    → IsConsistent db
    → ((has_redirection name db.redirections ≡ true)
        × (fr : FileRedirection) × (fw : FileWatcher) × (m : Machine) × (tm : Machine) × (keep
              (λ (r : FileRedirection). r.watcher_name == name)
              db.redirections
            ≡ fr ∷ [])
        × (keep (λ (x : FileWatcher). x.name == name) db.watchers ≡ fw ∷ [])
        × (keep (λ (x : Machine). x.name == fw.machine_name) db.machines ≡ m ∷ [])
        × (keep (λ (x : Machine). x.name == fr.target_machine_name) db.machines ≡ tm ∷ [])
        × (list_pending_flushes name db
            ≡ (ok (map (pending_row fr m tm) (unflushed name db.files)), db)))
      ⊎ ((has_redirection name db.redirections ≡ false)
          × (list_pending_flushes name db ≡ (ok [], db)))
unfolding list_pending_flushes pending_of
list_pending_flushes_lem name db c = elim (Bool-cases (has_redirection name db.redirections)) [
  | inl e ↦
      let (fr, one_fr, fr_name, fr_ok) =
        unique_row (λ (r : FileRedirection). r.watcher_name) _ name db.redirections
          c.redirection_names c.redirects e in
      let (fw, one_fw, fw_name, fw_ok) =
        unique_row (λ (x : FileWatcher). x.name) _ name db.watchers c.watcher_names c.on_machine
          (subst (λ k. has_watcher k db.watchers ≡ true) fr_name fr_ok.0) in
      let (m, one_m, m_name, m_ok) =
        unique_row (λ (x : Machine). x.name) (λ x. Unit {0}) fw.machine_name db.machines
          c.machine_names (All_of _ db.machines (λ x. tt)) fw_ok in
      let (tm, one_tm, tm_name, tm_ok) =
        unique_row (λ (x : Machine). x.name) (λ x. Unit {0}) fr.target_machine_name db.machines
          c.machine_names (All_of _ db.machines (λ x. tt)) fr_ok.1 in
      inl (
        e,
        fr,
        fw,
        m,
        tm,
        one_fr,
        one_fw,
        one_m,
        one_tm,
        ap (λ ps. (ok ps, db))
            (collect-single (pending_of db) (pending_row fr m tm) (λ f. f.watcher_name ≡ name)
              (unflushed name db.files)
              (λ f q. pending_of_row db fr fw m tm f (rw q one_fr) (rw q one_fw) one_m one_tm)
              (unflushed-mine name db.files)),
      )
  | inr e ↦ inr (
    e,
    ap (λ ps. (ok ps, db))
        (collect-empty (pending_of db) (λ f. f.watcher_name ≡ name) (unflushed name db.files)
          (λ f q. rw q (rw (keep-none _ db.redirections e) refl)) (unflushed-mine name db.files)),
  )
]
