-- ===== src/Server/Flush/Journal/Pool.antt =====
-- server/flush/flush.go: the pool of connections beside the journal.
use mathlib.Core.Path.{subst}
use tiny_file_watcher.Prelude.{
  ℕ, ◌+◌, ◌≤◌, ◌≡◌, refl, ap, String, Option, none, some, List, [], ◌∷◌, map, ◌==◌, Bool-cases,
  Option-cases, inl, inr, eq_iff, arith,
}
use tiny_file_watcher.Internal.FilePath.{join}
use tiny_file_watcher.Server.Outcome.{Result, outcome-cases}
use tiny_file_watcher.Server.Database.Files.{PendingFlush}
use tiny_file_watcher.Server.Flush.Transfer.{
  SftpClient, SftpDialer, MachineConfig, Pool, cached, get, close_all,
}
use tiny_file_watcher.Server.Flush.Job.{FlushJob, config, transfer_pending_file, transfer_all}
use tiny_file_watcher.Server.Flush.Journal.{
  Event, dialed, closed, Journaled, one_if, dials, closes, on_ok, client, dialer, job,
  transfer_file-silent,
}

some≢none : {A : Type 0} (a : A) → ¬ (some a ≡ none)
some≢none a h = cc

module _ {R : Type 0} where
  abbrev tagged : String × SftpClient R → String × SftpClient (Journaled R)
  tagged (k, c) = (k, client k c)

  -- the pool of the job with a journal
  abbrev pub lifted : Pool R → List Event → Pool (Journaled R)
  lifted p es = record { clients = map tagged p.clients; remote = (p.remote, es) }

  -- the number of connections to a machine
  unfoldable pub count : String → List (String × SftpClient R) → ℕ
  count name [] = 0
  count name ((k, c) ∷ cs) = one_if (k == name) + count name cs

  -- each connection of the pool was dialed once, and none is closed
  abbrev pub Tracks : Pool R → List Event → Type 0
  Tracks p es =
      (name : String)
      → (dials name es ≡ count name p.clients) × (closes name es ≡ 0) × (count name p.clients ≤ 1)

  cached-count :
      (name : String) (cs : List (String × SftpClient R))
      → cached name cs ≡ none
      → count name cs ≡ 0
  unfolding count
  cached-count name [] h = refl
  cached-count name ((k, c) ∷ cs) h = elim (Bool-cases (k == name)) [
    | inl e ↦ absurd (some≢none _ (rw e at h))
    | inr e ↦ let rest = cached-count name cs (rw e at h) in rw e (omega arith)
  ]

  abbrev seen : String → Option (SftpClient R) → Option (SftpClient (Journaled R))
  seen name none = none
  seen name (some c) = some (client name c)

  cached-tagged :
      (name : String) (cs : List (String × SftpClient R))
      → cached name (map tagged cs) ≡ seen name (cached name cs)
  cached-tagged name [] = refl
  cached-tagged name ((k, c) ∷ cs) = elim (Bool-cases (k == name)) [
    | inl e ↦ rw e (ap (λ n. some (client n c)) ((eq_iff k name).0 e))
    | inr e ↦ rw e (cached-tagged name cs)
  ]

  -- what the pool with a journal answered, against what the pool answered
  abbrev Lifts :
      String
      → Result (Unit {0}) (SftpClient (Journaled R)) × Pool (Journaled R)
      → Result (Unit {0}) (SftpClient R) × Pool R
      → Type 0
  Lifts name y' (x, q) =
      (fs : List Event) × (y' ≡ (on_ok (client name) x, lifted q fs)) × Tracks q fs

  dialed-Tracks :
      (name : String) (c : SftpClient R) (p : Pool R) (r : R) (es : List Event)
      → Tracks p es
      → count name p.clients ≡ 0
      → Tracks (record { clients = (name, c) ∷ p.clients; remote = r }) (dialed name ∷ es)
  unfolding dials closes count
  dialed-Tracks name c p r es t z other =
      let (a, b, l) = t other in
      elim (Bool-cases (name == other)) [
        | inl e ↦
            let here : count other p.clients ≡ 0 =
              subst (λ n. count n p.clients ≡ 0) ((eq_iff name other).0 e) z in
            rw e (omega arith, b, omega arith)
        | inr e ↦ rw e (omega arith, b, omega arith)
      ]

  get-lifted :
      (dial : SftpDialer R) (cfg : MachineConfig) (p : Pool R) (es : List Event)
      → Tracks p es
      → Lifts cfg.name (get (dialer dial) cfg (lifted p es)) (get dial cfg p)
  unfolding get
  get-lifted dial cfg p es t =
      rw (cached-tagged cfg.name p.clients, get)
        (elim (Option-cases (cached cfg.name p.clients)) [
          | inl e ↦
              rw (e, get)
                (elim (outcome-cases (dial cfg p.remote)) [
                  | inl (c, r, d) ↦ rw d (
                    dialed cfg.name ∷ es,
                    refl,
                    dialed-Tracks cfg.name c p r es t (cached-count cfg.name p.clients e),
                  )
                  | inr (u, r, d) ↦ rw d (es, refl, t)
                ])
          | inr (c, e) ↦ rw (e, get) (es, refl, t)
        ])

  -- the same answer of a job with a journal
  abbrev Follows : {E A : Type 0} → Result E A × Pool (Journaled R) → Result E A × Pool R → Type 0
  Follows y' (x, q) = (fs : List Event) × (y' ≡ (x, lifted q fs)) × Tracks q fs

  module _ {D : Type 0} (j : FlushJob D R) where
    transfer_pending_file-lifted :
        (pf : PendingFlush) (p : Pool R) (es : List Event)
        → Tracks p es
        → Follows (transfer_pending_file (job j) pf (lifted p es)) (transfer_pending_file j pf p)
    unfolding transfer_pending_file
    transfer_pending_file-lifted pf p es t =
        let first = get-lifted j.dialer (config pf.machine) p es t in
        elim (outcome-cases (get j.dialer (config pf.machine) p)) [
          | inl (c, q, e) ↦
              let (fs, a, u) = (rw e at first) in
              let second = get-lifted j.dialer (config pf.target_machine) q fs u in
              rw (a, e)
                (elim (outcome-cases (get j.dialer (config pf.target_machine) q)) [
                  | inl (d, s, b) ↦
                      let (gs, h, v) = (rw b at second) in
                      rw (h, b)
                        (rw
                          (transfer_file-silent c d pf.machine.name pf.target_machine.name
                            (join pf.file_path pf.file_name) (join pf.target_path pf.file_name)
                            s.remote gs)
                          (gs, refl, v))
                  | inr (x, s, b) ↦ let (gs, h, v) = (rw b at second) in rw (h, b) (gs, refl, v)
                ])
          | inr (x, q, e) ↦ let (fs, a, u) = (rw e at first) in rw (a, e) (fs, refl, u)
        ]

    pub transfer_all-lifted :
        (pfs : List PendingFlush) (p : Pool R) (es : List Event)
        → Tracks p es
        → Follows (transfer_all (job j) pfs (lifted p es)) (transfer_all j pfs p)
    unfolding transfer_all
    transfer_all-lifted [] p es t = (es, refl, t)
    transfer_all-lifted (pf ∷ pfs) p es t =
        let head = transfer_pending_file-lifted pf p es t in
        elim (outcome-cases (transfer_pending_file j pf p)) [
          | inl (n, q, e) ↦
              let (fs, a, u) = (rw e at head) in
              let rest = transfer_all-lifted pfs q fs u in
              rw (a, e)
                (elim (outcome-cases (transfer_all j pfs q)) [
                  | inl (ids, s, b) ↦ let (gs, h, v) = (rw b at rest) in rw (h, b) (gs, refl, v)
                  | inr (x, s, b) ↦ let (gs, h, v) = (rw b at rest) in rw (h, b) (gs, refl, v)
                ])
          | inr (x, q, e) ↦ let (fs, a, u) = (rw e at head) in rw (a, e) (fs, refl, u)
        ]

  pub close_all-lifted :
      (cs : List (String × SftpClient R)) (r : R) (es : List Event)
      → (gs : List Event) × (close_all (map tagged cs) (r, es) ≡ (close_all cs r, gs))
        × ((name : String)
            → (dials name gs ≡ dials name es) × (closes name gs ≡ count name cs + closes name es))
  unfolding close_all dials closes count
  close_all-lifted [] r es = (es, refl, λ name. (refl, omega arith))
  close_all-lifted ((k, c) ∷ cs) r es =
      let (gs, a, b) = close_all-lifted cs (c.close r) (closed k ∷ es) in
      (gs, a, λ name. let (d, e) = b name in (d, omega arith))
