-- ===== src/Server/Watcher/Remote/Leaks.antt =====
-- server/watcher/sync.go: the SSH connections that a sync leaves open.
use tiny_file_watcher.Prelude.{ℕ, ◌≡◌, ap, ◌∙◌, String, Bool, List, inl, inr}
use tiny_file_watcher.Server.Outcome.{Result, ok, err, outcome-cases}
use tiny_file_watcher.Server.Database.{Machine}
use tiny_file_watcher.Server.Flush.Job.{config}
use tiny_file_watcher.Server.Flush.Dialer.{ssh_dialer}
use tiny_file_watcher.Server.Flush.Dialer.Balance.{Opens}
use tiny_file_watcher.Server.Flush.Dialer.Connections.{IsSsh, ssh_dialer-IsBalanced}
use tiny_file_watcher.Server.Ssh.{Library, ClientConfig, public_keys, address, new_client}
use tiny_file_watcher.Server.Watcher.Walk.{RemoteFs}
use tiny_file_watcher.Server.Watcher.Sync.{SyncJob}
use tiny_file_watcher.Server.Watcher.Remote.{View, open_remote_fs, run_over_ssh}

module _ {N K : Type 0} (open_now : N → ℕ → Bool) (lib : Library N K) (view : View N) where
  -- a new connection and what it shows, or an error and no change of the connections
  abbrev pub Connected : N → Result (Unit {0}) RemoteFs × N → Type 0
  Connected n (ok rfs, n') = (i : ℕ) × Opens open_now i n n'
  Connected n (err e, n') = (k : ℕ) → open_now n' k ≡ open_now n k

  open_remote_fs-Connected :
      IsSsh open_now lib
      → (machine : Machine) (n : N) → Connected n (open_remote_fs lib view machine n)
  unfolding open_remote_fs ssh_dialer new_client
  open_remote_fs-Connected ssh machine n =
      let cfg = config machine in
      let options : ClientConfig N K = record {
        user = cfg.ssh_user;
        public_keys = public_keys lib cfg;
      } in
      let dialed = ssh.dial (address lib cfg) options n in
      let given = ssh_dialer-IsBalanced open_now lib ssh cfg n in
      elim (outcome-cases (lib.dial (address lib cfg) options n)) [
        | inl (conn, t, e) ↦
            let (i, closes, opens) = (rw e at dialed) in
            let started = ssh.new_sftp conn t in
            let after = (rw e at given) in
            rw e (elim (outcome-cases (lib.new_sftp conn t)) [
              | inl (c, u, b) ↦
                  let (same, quiet, rests) = (rw b at started) in
                  rw b (i, (opens.0, λ k. ap (λ f. f k) same ∙ opens.1 k))
              | inr (x, u, b) ↦ rw b (rw b at after)
            ])
        | inr (x, t, e) ↦ rw e (rw e at dialed)
      ]

  -- Over SSH whose dials open one new connection or none, whose Close closes the connection that it is
  -- called on, and over SFTP that opens and closes none: a sync whose connection to the machine is
  -- made, that of SFTP on it included, ends with one more SSH connection open, whatever its result
  -- is, and the connections that were open before are still open. A sync whose connection is not made
  -- leaves exactly those open that were open before.
  pub run_over_ssh-Connected :
      IsSsh open_now lib
      → {S : Type 0} (compile : List String → String → Bool) (j : SyncJob S) (machine : Machine)
        (flush : Bool) (s : S) (n : N)
      → Connected n (
        (open_remote_fs lib view machine n).0,
        (run_over_ssh lib view compile j machine flush (s, n)).1.1,
      )
  unfolding run_over_ssh
  run_over_ssh-Connected ssh compile j machine flush s n = open_remote_fs-Connected ssh machine n
