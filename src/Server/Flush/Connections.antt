-- ===== src/Server/Flush/Connections.antt =====
-- server/flush/flush.go: the connections that a flush job opens and closes.
use tiny_file_watcher.Prelude.{Bool, ◌+◌, ◌≤◌, ◌≡◌, refl, String, List, [], ◌∷◌, inl, inr, arith}
use tiny_file_watcher.Server.Outcome.{Result, outcome-cases}
use tiny_file_watcher.Server.Database.Files.{PendingFlush}
use tiny_file_watcher.Server.Flush.Transfer.{Pool}
use tiny_file_watcher.Server.Flush.Job.{FlushError, FlushJob, transfer_all, flush_pending, run}
use tiny_file_watcher.Server.Flush.Journal.{Event, Journaled, dials, closes, job}
use tiny_file_watcher.Server.Flush.Journal.Pool.{
  Tracks, count, transfer_all-lifted, close_all-lifted,
}

module _ {D R : Type 0} (j : FlushJob D R) where
  abbrev pub with_journal :
      Result FlushError Bool × (D × R) → List Event → Result FlushError Bool × (D × Journaled R)
  with_journal (x, (d, r)) es = (x, (d, (r, es)))

  -- every machine that was dialed was dialed once, and the connection to it was closed once
  abbrev pub IsSettled : List Event → Type 0
  IsSettled es = (name : String) → (dials name es ≡ closes name es) × (dials name es ≤ 1)

  -- the job with a journal ends as the job does, and its journal is settled
  abbrev pub Settles :
      Result FlushError Bool × (D × Journaled R) → Result FlushError Bool × (D × R) → Type 0
  Settles y' y = (es : List Event) × (y' ≡ with_journal y es) × IsSettled es

  nothing-IsSettled : IsSettled []
  unfolding dials closes
  nothing-IsSettled name = (refl, omega arith)

  closed-IsSettled :
      (p : Pool R) (es gs : List Event)
      → Tracks p es
      → ((name : String)
          → (dials name gs ≡ dials name es)
            × (closes name gs ≡ count name p.clients + closes name es))
      → IsSettled gs
  closed-IsSettled p es gs t b name =
      let (d, c) = b name in let (x, y, z) = t name in (omega arith, omega arith)

  flush_pending-Settles :
      (pfs : List PendingFlush) (d : D) (r : R)
      → Settles (flush_pending (job j) pfs (d, (r, []))) (flush_pending j pfs (d, r))
  unfolding dials closes count
  flush_pending-Settles [] d r = ([], refl, nothing-IsSettled)
  flush_pending-Settles (pf ∷ pfs) d r =
      let start : Pool R = record { clients = []; remote = j.on_log "found pending flushes" r } in
      let all = transfer_all-lifted j (pf ∷ pfs) start [] (λ name. (refl, refl, omega arith)) in
      elim (outcome-cases (transfer_all j (pf ∷ pfs) start)) [
        | inl (ids, p, e) ↦
            let (fs, a, t) = (rw e at all) in
            let (gs, c, b) = close_all-lifted p.clients p.remote fs in
            rw (a, e) (rw c (gs, refl, closed-IsSettled p fs gs t b))
        | inr (x, p, e) ↦
            let (fs, a, t) = (rw e at all) in
            let (gs, c, b) = close_all-lifted p.clients p.remote fs in
            rw (a, e) (rw c (gs, refl, closed-IsSettled p fs gs t b))
      ]

  -- Noting in a journal which machines are dialed and which connections are closed changes neither
  -- the answer of a flush job nor what it does. Over any database and any machines, and however the
  -- job ends, each machine, by its name, was dialed successfully at most once, and the number of its
  -- connections that were closed is that of those that were opened.
  pub run-Settles : (d : D) (r : R) → Settles (run (job j) (d, (r, []))) (run j (d, r))
  unfolding run
  run-Settles d r =
      elim (outcome-cases (j.flush_repository.list_pending_flushes j.watcher_name d)) [
        | inl (pfs, d', e) ↦ rw e (flush_pending-Settles pfs d' r)
        | inr (x, d', e) ↦ rw e ([], refl, nothing-IsSettled)
      ]
