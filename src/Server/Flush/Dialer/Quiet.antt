-- ===== src/Server/Flush/Dialer/Quiet.antt =====
-- server/flush/flush.go: a transfer over clients that leave the open connections alone.
use tiny_file_watcher.Prelude.{ℕ, ◌≡◌, ◌∙◌, String, inl, inr, Bool-cases}
use tiny_file_watcher.Internal.FilePath.{dir}
use tiny_file_watcher.Server.Outcome.{Exec, ok, or_status, ◌>>=◌, ◌>>◌, outcome-cases}
use tiny_file_watcher.Server.Flush.Transfer.{
  Reader, Writer, SftpClient, TransferError, copy_data, create_destination, chmod_destination,
  chtimes_destination, copy, deferred, transfer_file,
}

module _ {N V : Type 0} (conns : N → V) where
  abbrev pub Keeps : {E A : Type 0} → Exec E N A → Type 0
  Keeps m = (s : N) → conns (m s).1 ≡ conns s

  pub record KeepsReader (r : Reader N) : Type 0 where
    pub read : (s : N) → conns (r.read s).1 ≡ conns s
    pub close : (s : N) → conns (r.close s) ≡ conns s

  pub record KeepsWriter (w : Writer N) : Type 0 where
    pub write : (text : String) → Keeps (w.write text)
    pub close : (s : N) → conns (w.close s) ≡ conns s

  -- the calls of the client open and close no connection, its own Close excepted
  pub record IsQuiet (c : SftpClient N) : Type 0 where
    pub stat : (path : String) → Keeps (c.stat path)
    pub mkdir_all : (path : String) → Keeps (c.mkdir_all path)
    pub open_file : (path : String) → Keeps (c.open_file path)
    pub reader :
        (path : String) (s t : N) (r : Reader N) → c.open_file path s ≡ (ok r, t) → KeepsReader r
    pub create : (path : String) → Keeps (c.create path)
    pub writer :
        (path : String) (s t : N) (w : Writer N) → c.create path s ≡ (ok w, t) → KeepsWriter w
    pub chmod : (path : String) (mode : ℕ) → Keeps (c.chmod path mode)
    pub chtimes : (path : String) (atime mtime : ℕ) → Keeps (c.chtimes path atime mtime)

  copy-Keeps : (w : Writer N) (r : Reader N) → KeepsWriter w → KeepsReader r → Keeps (copy w r)
  unfolding copy
  copy-Keeps w r kw kr s =
      let (part, s1) = r.read s in
      let k1 = kr.read s in
      let k2 = kw.write part.0 s1 in
      elim (outcome-cases (w.write part.0 s1)) [
        | inl (u, s2, e) ↦ elim (Bool-cases part.1) [
          | inl b ↦ rw e (rw b ((rw e at k2) ∙ k1))
          | inr b ↦ rw e (rw b ((rw e at k2) ∙ k1))
        ]
        | inr (x, s2, e) ↦ rw e ((rw e at k2) ∙ k1)
      ]

  module _ (c d : SftpClient N) (qc : IsQuiet c) (qd : IsQuiet d) where
    -- what a transfer does once the destination is created, and once the source is opened
    abbrev fill : Reader N → Writer N → String → ℕ → ℕ → Exec TransferError N (Unit {0})
    fill r w dst mode time = do
      or_status copy_data (copy w r)
      or_status chmod_destination (d.chmod dst mode)
      or_status chtimes_destination (d.chtimes dst time time)

    abbrev fill_opened : Reader N → String → ℕ → ℕ → Exec TransferError N (Unit {0})
    fill_opened r dst mode time = deferred r.close (do
      w ← or_status create_destination (d.create dst)
      deferred w.close (fill r w dst mode time))

    fill-Keeps :
        (r : Reader N) (w : Writer N) (dst : String) (mode time : ℕ)
        → KeepsReader r
        → KeepsWriter w
        → Keeps (fill r w dst mode time)
    fill-Keeps r w dst mode time kr kw s =
        let k1 = copy-Keeps w r kw kr s in
        elim (outcome-cases (copy w r s)) [
          | inl (u, s1, e1) ↦
              let k2 = qd.chmod dst mode s1 in
              rw e1 (elim (outcome-cases (d.chmod dst mode s1)) [
                | inl (v, s2, e2) ↦
                    let k3 = qd.chtimes dst time time s2 in
                    rw e2 (k3 ∙ (rw e2 at k2) ∙ (rw e1 at k1))
                | inr (x, s2, e2) ↦ rw e2 ((rw e2 at k2) ∙ (rw e1 at k1))
              ])
          | inr (x, s1, e1) ↦ rw e1 (rw e1 at k1)
        ]

    opened-Keeps :
        (r : Reader N) (mode time : ℕ) (dst : String) (s : N)
        → KeepsReader r
        → conns (fill_opened r dst mode time s).1 ≡ conns s
    opened-Keeps r mode time dst s kr =
        let k1 = qd.create dst s in
        elim (outcome-cases (d.create dst s)) [
          | inl (w, s1, e1) ↦
              let kw = qd.writer dst s s1 w e1 in
              rw e1
                (kr.close _ ∙ kw.close _ ∙ fill-Keeps r w dst mode time kr kw s1 ∙ (rw e1 at k1))
          | inr (x, s1, e1) ↦ rw e1 (kr.close s1 ∙ (rw e1 at k1))
        ]

    pub transfer_file-Keeps : (src dst : String) → Keeps (transfer_file c d src dst)
    unfolding transfer_file
    transfer_file-Keeps src dst s =
        let k1 = qc.stat src s in
        elim (outcome-cases (c.stat src s)) [
          | inl (info, s1, e1) ↦
              let k2 = qd.mkdir_all (dir dst) s1 in
              rw e1 (elim (outcome-cases (d.mkdir_all (dir dst) s1)) [
                | inl (u, s2, e2) ↦
                    let k3 = qc.open_file src s2 in
                    rw e2 (elim (outcome-cases (c.open_file src s2)) [
                      | inl (r, s3, e3) ↦ rw e3 (
                          opened-Keeps r info.mode info.mod_time dst s3 (qc.reader src s2 s3 r e3)
                          ∙ (rw e3 at k3)
                          ∙ (rw e2 at k2)
                          ∙ (rw e1 at k1))
                      | inr (x, s3, e3) ↦ rw e3 ((rw e3 at k3) ∙ (rw e2 at k2) ∙ (rw e1 at k1))
                    ])
                | inr (x, s2, e2) ↦ rw e2 ((rw e2 at k2) ∙ (rw e1 at k1))
              ])
          | inr (x, s1, e1) ↦ rw e1 (rw e1 at k1)
        ]
