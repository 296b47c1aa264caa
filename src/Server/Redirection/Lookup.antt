-- ===== src/Server/Redirection/Lookup.antt =====
-- server/redirection/service.go: CreateFileRedirection and GetFileRedirection over the
-- database.
use mathlib.Core.Path.{subst}
use tiny_file_watcher.Prelude.{
  ℕ, ◌≡◌, refl, String, false, not, ◌||◌, List, [], ◌∷◌, ◌++◌, ◌==◌, inl, inr, some, first,
  Bool-cases, eq_refl, arith,
}
use tiny_file_watcher.Server.Outcome.{Result, ok, err, Code, outcome-cases}
use tiny_file_watcher.Server.Database.{
  FileRedirection, Db, has_redirection, rfc3339, has_watcher, has_machine,
}
use tiny_file_watcher.Server.Database.Machines.{get_machine_by_name}
use tiny_file_watcher.Server.Database.Redirections.{add_redirection, get_redirection}
use tiny_file_watcher.Server.Database.Repositories.{
  db_redirection_repository, db_machine_repository,
}
use tiny_file_watcher.Server.Redirection.{
  RedirectionService, RedirectionMessage, create_file_redirection, get_file_redirection,
}

abbrev pub db_service : RedirectionService Db
db_service = record {
  redirection_repository = db_redirection_repository;
  machine_repository = db_machine_repository;
}

first-snoc :
    (name : String) (rs : List FileRedirection) (r : FileRedirection)
    → has_redirection name rs ≡ false
    → r.watcher_name ≡ name
    → first (λ (x : FileRedirection). x.watcher_name == name) (rs ++ r ∷ []) ≡ some r
first-snoc name [] r h e = rw e (rw (eq_refl name) refl)
first-snoc name (x ∷ rs) r h e = ground (arith, first-snoc name rs r)

-- the row of a redirection that is made at that time
abbrev stored : String → String → String → ℕ → FileRedirection
stored w path machine now = record {
  watcher_name = w;
  target_path = path;
  target_machine_name = machine;
  created_at = rfc3339 now;
  updated_at = rfc3339 now;
}

-- the created redirection is read back, its times in whole seconds
abbrev ReadsBack : String → Result Code RedirectionMessage × Db → Type 0
ReadsBack w (err e, db') = Unit
ReadsBack w (ok r, db') =
    get_file_redirection db_service w db'
    ≡ (ok (record r { created_at = rfc3339 r.created_at; updated_at = rfc3339 r.updated_at }), db')

create-ReadsBack :
    (w path machine : String) (db : Db)
    → ReadsBack w (create_file_redirection db_service w path machine db)
unfolding create_file_redirection get_file_redirection add_redirection get_redirection
create-ReadsBack w path machine db = elim (Bool-cases (w == "" || path == "")) [
  | inl a ↦ rw a tt
  | inr a ↦ elim (Bool-cases (machine == "")) [
    | inl b ↦ rw (a, b) tt
    | inr b ↦ elim (outcome-cases (get_machine_by_name machine db)) [
      | inr c ↦ rw (a, b) (rw c.2 tt)
      | inl (m, db', c) ↦ elim (Bool-cases (has_redirection w db'.redirections)) [
        | inl d ↦ rw (a, b) (rw c (rw d tt))
        | inr d ↦
            elim (Bool-cases
              (not (has_watcher w db'.watchers) || not (has_machine machine db'.machines))) [
                | inl e ↦ rw (a, b) (rw c (rw (d, e) tt))
                | inr e ↦
                    rw (a, b)
                      (rw c (
                        rw (d, e)
                          (rw
                            (
                              first-snoc w db'.redirections (stored w path machine db'.clock) d
                                  refl,
                              get_redirection,
                            )
                            refl)))
              ]
      ]
    ]
  ]
]

-- A redirection that CreateFileRedirection returns is what GetFileRedirection answers for that
-- watcher on the database it leaves, with the times cut to whole seconds and all else equal.
pub create_file_redirection-get :
    (w path machine : String) (db db' : Db) (r : RedirectionMessage)
    → create_file_redirection db_service w path machine db ≡ (ok r, db')
    → get_file_redirection db_service w db' ≡ (
      ok (record r { created_at = rfc3339 r.created_at; updated_at = rfc3339 r.updated_at }),
      db',
    )
create_file_redirection-get w path machine db db' r e =
    subst (ReadsBack w) e (create-ReadsBack w path machine db)
