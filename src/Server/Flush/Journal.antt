-- ===== src/Server/Flush/Journal.antt =====
-- server/flush/flush.go with a journal of its connections: each machine that is dialed and each
-- connection that is closed is noted, the latest first. All else is done as without the journal.
pub mod Pool
use tiny_file_watcher.Prelude.{
  ℕ, ◌+◌, String, Bool, ◌≡◌, refl, ap, List, [], ◌∷◌, ◌==◌, inl, inr, Bool-cases, if◌then◌else◌,
}
use tiny_file_watcher.Internal.FilePath.{dir}
use tiny_file_watcher.Server.Outcome.{Result, ok, err, Exec, outcome-cases}
use tiny_file_watcher.Server.Flush.Transfer.{
  Reader, Writer, SftpClient, SftpDialer, MachineConfig, TransferError, copy, transfer_file,
}
use tiny_file_watcher.Server.Flush.Job.{FlushJob}

pub data Event : Type 0 where
  dialed closed : String → Event

abbrev pub Journaled : Type 0 → Type 0
Journaled R = R × List Event

abbrev pub one_if : Bool → ℕ
one_if b = if b then 1 else 0

-- how often a machine was dialed, and how often a connection to it was closed
unfoldable pub dials : String → List Event → ℕ
dials name [] = 0
dials name (dialed k ∷ es) = one_if (k == name) + dials name es
dials name (closed k ∷ es) = dials name es

unfoldable pub closes : String → List Event → ℕ
closes name [] = 0
closes name (dialed k ∷ es) = closes name es
closes name (closed k ∷ es) = one_if (k == name) + closes name es

abbrev pub on_ok : {E A B : Type 0} → (A → B) → Result E A → Result E B
on_ok f (ok a) = ok (f a)
on_ok f (err e) = err e

module _ {R : Type 0} where
  -- what was done without the journal, beside the journal
  abbrev pub beside : {A : Type 0} → List Event → A × R → A × Journaled R
  beside es (a, r) = (a, (r, es))

  abbrev pub silent : {E A : Type 0} → Exec E R A → Exec E (Journaled R) A
  silent m (r, es) = beside es (m r)

  abbrev pub reader : Reader R → Reader (Journaled R)
  reader x = record { read = λ s. beside s.1 (x.read s.0); close = λ s. (x.close s.0, s.1) }

  abbrev pub writer : Writer R → Writer (Journaled R)
  writer x = record { write = λ text. silent (x.write text); close = λ s. (x.close s.0, s.1) }

  abbrev pub answer : {E A B : Type 0} → (A → B) → Exec E R A → Exec E (Journaled R) B
  answer f m (r, es) = let (x, r') = m r in (on_ok f x, (r', es))

  abbrev pub client : String → SftpClient R → SftpClient (Journaled R)
  client name c = record {
    stat = λ path. silent (c.stat path);
    mkdir_all = λ path. silent (c.mkdir_all path);
    open_file = λ path. answer reader (c.open_file path);
    create = λ path. answer writer (c.create path);
    chmod = λ path mode. silent (c.chmod path mode);
    chtimes = λ path atime mtime. silent (c.chtimes path atime mtime);
    close = λ s. (c.close s.0, closed name ∷ s.1);
  }

  abbrev noted :
      String
      → List Event
      → Result (Unit {0}) (SftpClient R) × R
      → Result (Unit {0}) (SftpClient (Journaled R)) × Journaled R
  noted name es (ok c, r) = (ok (client name c), (r, dialed name ∷ es))
  noted name es (err e, r) = (err e, (r, es))

  abbrev pub dialer : SftpDialer R → SftpDialer (Journaled R)
  dialer dial cfg (r, es) = noted cfg.name es (dial cfg r)

  abbrev pub job : {D : Type 0} → FlushJob D R → FlushJob D (Journaled R)
  job j = record {
    watcher_name = j.watcher_name;
    flush_repository = j.flush_repository;
    dialer = dialer j.dialer;
    on_log = λ msg s. (j.on_log msg s.0, s.1);
  }

  copy-silent :
      (out : Writer R) (src : Reader R) (r : R) (es : List Event)
      → copy (writer out) (reader src) (r, es) ≡ beside es (copy out src r)
  unfolding copy
  copy-silent out src r es =
      let (part, r1) = src.read r in
      elim (outcome-cases (out.write part.0 r1)) [
        | inl (u, r2, e) ↦ elim (Bool-cases part.1) [
          | inl b ↦ rw e (rw b refl)
          | inr b ↦ rw e (rw b refl)
        ]
        | inr (x, r2, e) ↦ rw e refl
      ]

  -- a transfer dials and closes no connection
  pub transfer_file-silent :
      (c d : SftpClient R) (name other src dst : String) (r : R) (es : List Event)
      → transfer_file (client name c) (client other d) src dst (r, es)
        ≡ beside es (transfer_file c d src dst r)
  unfolding transfer_file
  transfer_file-silent c d name other src dst r es = elim (outcome-cases (c.stat src r)) [
    | inl (info, r1, e1) ↦ rw e1 (elim (outcome-cases (d.mkdir_all (dir dst) r1)) [
      | inl (u, r2, e2) ↦ rw e2 (elim (outcome-cases (c.open_file src r2)) [
        | inl (in_file, r3, e3) ↦ rw e3 (elim (outcome-cases (d.create dst r3)) [
          | inl (out, r4, e4) ↦
              rw (e4, copy-silent out in_file r4 es)
                (elim (outcome-cases (copy out in_file r4)) [
                  | inl (v, r5, e5) ↦ rw e5 (elim (outcome-cases (d.chmod dst info.mode r5)) [
                    | inl (w, r6, e6) ↦
                        rw e6 (elim (outcome-cases (d.chtimes dst info.mod_time info.mod_time r6)) [
                          | inl (x, r7, e7) ↦ rw e7 refl
                          | inr (x, r7, e7) ↦ rw e7 refl
                        ])
                    | inr (x, r6, e6) ↦ rw e6 refl
                  ])
                  | inr (x, r5, e5) ↦ rw e5 refl
                ])
          | inr (x, r4, e4) ↦ rw e4 refl
        ])
        | inr (x, r3, e3) ↦ rw e3 refl
      ])
      | inr (x, r2, e2) ↦ rw e2 refl
    ])
    | inr (x, r1, e1) ↦ rw e1 refl
  ]
