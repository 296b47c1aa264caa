-- ===== src/Server/Flush/Dialer/Connections.antt =====
-- server/flush/service.go over server/ssh/client.go: the SSH connections that a flush leaves open.
use mathlib.Core.Path.{subst}
use tiny_file_watcher.Prelude.{
  ℕ, ◌≡◌, refl, sym, ap, ◌∙◌, String, Bool, false, some, not, ◌&&◌, ◌||◌, [], ◌∷◌, ◌==◌, any,
  nat_eq, nat_eq_iff, inl, inr, Bool-cases, List,
}
use tiny_file_watcher.Server.Outcome.{Result, ok, err, Exec, outcome-cases}
use tiny_file_watcher.Server.Database.Files.{PendingFlush}
use tiny_file_watcher.Server.Database.Repositories.{FlushRepository}
use tiny_file_watcher.Server.Flush.Transfer.{SftpClient, Pool, close_all}
use tiny_file_watcher.Server.Flush.Job.{FlushJob, flush_pending, run}
use tiny_file_watcher.Server.Flush.Service.{Event, FlushService, flush_watcher, job, no_callback}
use tiny_file_watcher.Server.Flush.Dialer.{ssh_sftp_client, ssh_dialer}
use tiny_file_watcher.Server.Flush.Dialer.Quiet.{IsQuiet}
use tiny_file_watcher.Server.Flush.Dialer.Balance.{
  Closes, Opens, IsOwner, IsBalanced, Holds, Leaves, transfer_all-Holds, close_all-Leaves,
  true≢false,
}
use tiny_file_watcher.Server.Ssh.{
  Library, SshConn, ClientConfig, address, public_keys, close, new_client,
}

module _ {N : Type 0} (open_now : N → ℕ → Bool) where
  -- what the pool holds is all that is open and was not
  held-Leaves :
      (start s : N) (is : List ℕ)
      → ((k : ℕ) → open_now s k ≡ (any (nat_eq k) is || open_now start k))
      → Leaves open_now start is s
  held-Leaves start s is o k = elim (Bool-cases (any (nat_eq k) is)) [
    | inl e ↦ inl e
    | inr e ↦ inr (o k ∙ ap (λ b. b || open_now start k) e)
  ]

  left : (start s : N) → Leaves open_now start [] s → (k : ℕ) → open_now s k ≡ open_now start k
  left start s l k = elim (l k) [ inl m ↦ absurd (true≢false (sym m)) | inr m ↦ m ]

  module _ {D : Type 0} (j : FlushJob D N) where
    closing :
        (start : N) (p : Pool N)
        → Holds open_now start p
        → (k : ℕ) → open_now (close_all p.clients p.remote) k ≡ open_now start k
    closing start p (is, n, o) =
        left start _ (
          close_all-Leaves open_now start p.clients is p.remote n (held-Leaves start p.remote is o))

    flush_pending-keeps :
        IsBalanced open_now j.dialer
        → ((msg : String) (s : N) → open_now (j.on_log msg s) ≡ open_now s)
        → (pfs : List PendingFlush) (d : D) (r : N) (k : ℕ)
        → open_now (flush_pending j pfs (d, r)).1.1 k ≡ open_now r k
    flush_pending-keeps balanced quiet [] d r k = ap (λ f. f k) (quiet _ r)
    flush_pending-keeps balanced quiet (pf ∷ pfs) d r k =
        let start : Pool N = record { clients = []; remote = j.on_log "found pending flushes" r } in
        let held =
          transfer_all-Holds open_now r j balanced (pf ∷ pfs) start
            ([], tt, λ k. ap (λ f. f k) (quiet _ r)) in
        closing r _ held k

    run-keeps :
        IsBalanced open_now j.dialer
        → ((msg : String) (s : N) → open_now (j.on_log msg s) ≡ open_now s)
        → (d : D) (r : N) (k : ℕ) → open_now (run j (d, r)).1.1 k ≡ open_now r k
    unfolding run
    run-keeps balanced quiet d r k =
        elim (outcome-cases (j.flush_repository.list_pending_flushes j.watcher_name d)) [
          | inl (pfs, d', e) ↦ rw e (flush_pending-keeps balanced quiet pfs d' r k)
          | inr (x, d', e) ↦ rw e refl
        ]

  -- what is documented of a dial by SSH: it opens a new connection, which Close closes, or none
  abbrev pub SshDials : N → Result (Unit {0}) (SshConn N) × N → Type 0
  SshDials s (ok conn, t) = (i : ℕ) × Closes open_now i conn.close × Opens open_now i s t
  SshDials s (err e, t) = (k : ℕ) → open_now t k ≡ open_now s k

  -- an SFTP client opens and closes no connection
  abbrev pub SftpRests : N → Result (Unit {0}) (SftpClient N) × N → Type 0
  SftpRests s (ok c, t) =
      (open_now t ≡ open_now s) × IsQuiet open_now c × ((u : N) → open_now (c.close u) ≡ open_now u)
  SftpRests s (err e, t) = open_now t ≡ open_now s

  pub record IsSsh {K : Type 0} (lib : Library N K) : Type 0 where
    pub dial : (addr : String) (cfg : ClientConfig N K) (s : N) → SshDials s (lib.dial addr cfg s)
    pub new_sftp : (conn : SshConn N) (s : N) → SftpRests s (lib.new_sftp conn s)

  module _ {K : Type 0} (lib : Library N K) (ssh : IsSsh lib) where
    -- a connection that was opened and closed again
    closed_again :
        (i k : ℕ) (s t u v : N)
        → Opens open_now i s t
        → open_now u ≡ open_now t
        → open_now v k ≡ (not (nat_eq k i) && open_now u k)
        → open_now v k ≡ open_now s k
    closed_again i k s t u v (fresh, now) kept c = elim (Bool-cases (nat_eq k i)) [
      | inl e ↦
          c
          ∙ ap (λ b. not b && open_now u k) e
          ∙ sym (subst (λ n. open_now s n ≡ false) (sym ((nat_eq_iff k i).0 e)) fresh)
      | inr e ↦
          c
          ∙ ap (λ b. not b && open_now u k) e
          ∙ ap (λ f. f k) kept
          ∙ now k
          ∙ ap (λ b. b || open_now s k) e
    ]

    both_closed-IsOwner :
        (i : ℕ) (conn : SshConn N) (c : SftpClient N)
        → Closes open_now i conn.close
        → IsQuiet open_now c
        → ((u : N) → open_now (c.close u) ≡ open_now u)
        → IsOwner open_now i
            (ssh_sftp_client (record { ssh_conn = some conn; sftp_client = some c }))
    unfolding ssh_sftp_client close
    both_closed-IsOwner i conn c closes q rests = record {
      quiet = record {
        stat = q.stat;
        mkdir_all = q.mkdir_all;
        open_file = q.open_file;
        reader = q.reader;
        create = q.create;
        writer = q.writer;
        chmod = q.chmod;
        chtimes = q.chtimes;
      };
      closes = λ u k. closes (c.close u) k ∙ ap (λ f. not (nat_eq k i) && f k) (rests u);
    }

    pub ssh_dialer-IsBalanced : IsBalanced open_now (ssh_dialer lib)
    unfolding ssh_dialer new_client
    ssh_dialer-IsBalanced cfg s =
        let options : ClientConfig N K = record {
          user = cfg.ssh_user;
          public_keys = public_keys lib cfg;
        } in
        let dialed = ssh.dial (address lib cfg) options s in
        elim (outcome-cases (lib.dial (address lib cfg) options s)) [
          | inl (conn, t, e) ↦
              let (i, closes, opens) = (rw e at dialed) in
              let started = ssh.new_sftp conn t in
              rw e (elim (outcome-cases (lib.new_sftp conn t)) [
                | inl (c, u, b) ↦
                    let (same, quiet, rests) = (rw b at started) in
                    rw b (
                      i,
                      both_closed-IsOwner i conn c closes quiet rests,
                      (opens.0, λ k. ap (λ f. f k) same ∙ opens.1 k),
                    )
                | inr (x, u, b) ↦ rw b (λ k.
                    closed_again i k s t u (conn.close u) opens (rw b at started) (closes u k))
              ])
          | inr (x, t, e) ↦ rw e (rw e at dialed)
        ]

    -- Over SSH whose dials open one new connection or none, whose Close closes the connection that it
    -- is called on, and over SFTP that opens and closes none: a call of FlushWatcher leaves exactly
    -- those SSH connections open that were open before, whether it succeeds or fails, at whatever
    -- file, call or connection.
    pub flush_watcher-connections :
        {D : Type 0} (repository : FlushRepository D) (send : Event → Exec (Unit {0}) N (Unit {0}))
        (name : String) (d : D) (s : N) (k : ℕ)
        → open_now
            (flush_watcher
              (record { flush_repository = repository; dialer = ssh_dialer lib; send = send })
              name
              (d, s)).1.1
            k
          ≡ open_now s k
    unfolding flush_watcher
    flush_watcher-connections {D} repository send name d s k =
        let svc : FlushService D N = record {
          flush_repository = repository;
          dialer = ssh_dialer lib;
          send = send;
        } in
        elim (Bool-cases (name == "")) [
          | inl e ↦ rw e refl
          | inr e ↦
              rw e
                (run-keeps (job svc name no_callback) ssh_dialer-IsBalanced (λ msg t. refl) d s k)
        ]
