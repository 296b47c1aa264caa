-- ===== src/Tests/Flushes.antt =====
-- The theorems on the connections of flushes and syncs, on concrete inputs.
use tiny_file_watcher.Prelude.{
  ℕ, ◌≡◌, refl, Bool, true, false, ◌&&◌, ◌||◌, not, List, ◌∷◌, [], nat_eq,
}
use tiny_file_watcher.Server.Outcome.{Result, ok, err, internal}
use tiny_file_watcher.Server.Database.{Db, Machine}
use tiny_file_watcher.Server.Database.Files.{list_pending_flushes}
use tiny_file_watcher.Server.Database.Repositories.{db_flush_repository}
use tiny_file_watcher.Server.Flush.Transfer.{SftpClient, get}
use tiny_file_watcher.Server.Flush.Job.{FlushJob, run, transfer_all, transfer_pending_file}
use tiny_file_watcher.Server.Flush.Journal.{Event, dialed, closed}
use tiny_file_watcher.Server.Flush.Journal as Journal
use tiny_file_watcher.Server.Flush.Connections.{Settles, run-Settles}
use tiny_file_watcher.Server.Flush.Service.{FlushService, flush_watcher}
use tiny_file_watcher.Server.Flush.Dialer.{ssh_dialer}
use tiny_file_watcher.Server.Flush.Dialer.Quiet.{IsQuiet}
use tiny_file_watcher.Server.Flush.Dialer.Connections.{IsSsh, SshDials, flush_watcher-connections}
use tiny_file_watcher.Server.Ssh.{Library, SshConn, port_text}
use tiny_file_watcher.Server.Watcher.Sync.Updates.{db_job}
use tiny_file_watcher.Server.Watcher.Remote.{open_remote_fs, run_over_ssh}
use tiny_file_watcher.Server.Watcher.Remote.Sequences.{
  connected, after_syncs, Leaks, after_syncs-Leaks,
}
use tiny_file_watcher.Server.Watcher.Sync.{SyncJob}
use tiny_file_watcher.Tests.Fixtures.{db, docs, nas, tree, no_rules}
use tiny_file_watcher.Tests.Databases.{dialer}

abbrev flush_job : FlushJob Db ℕ
flush_job = record {
  watcher_name = "docs";
  flush_repository = db_flush_repository;
  dialer = dialer;
  on_log = λ msg r. r;
}

run-Settles_example :
    Settles flush_job (run (Journal.job flush_job) (db, (0, []))) (run flush_job (db, 0))
run-Settles_example = run-Settles flush_job db 0

-- a network that takes one connection at a time, and the state of which tells whether it is open
abbrev open_now : Bool → ℕ → Bool
open_now s k = s && nat_eq k 0

abbrev silent : SftpClient Bool
silent = record {
  stat = λ path s. (ok (record { mode = 420; mod_time = 7 }), s);
  mkdir_all = λ path s. (ok tt, s);
  open_file = λ path s. (err tt, s);
  create = λ path s. (err tt, s);
  chmod = λ path mode s. (ok tt, s);
  chtimes = λ path atime mtime s. (ok tt, s);
  close = λ s. s;
}

silent-IsQuiet : IsQuiet open_now silent
silent-IsQuiet = record {
  stat = λ path s. refl;
  mkdir_all = λ path s. refl;
  open_file = λ path s. refl;
  reader = λ path s t r h. absurd (no_file h);
  create = λ path s. refl;
  writer = λ path s t w h. absurd (no_file h);
  chmod = λ path mode s. refl;
  chtimes = λ path atime mtime s. refl;
}
  where
    no_file :
        {A : Type 0} {a : A} {s t : Bool}
        → ¬ (Path (Result (Unit {0}) A × Bool) (err tt, s) (ok a, t))
    no_file h = cc

abbrev dial_one : Bool → Result (Unit {0}) (SshConn Bool) × Bool
dial_one true = (err tt, true)
dial_one false = (ok (record { close = λ s. false }), true)

abbrev library : Library Bool ℕ
library = record {
  read_file = λ path s. (ok "key", s);
  parse_private_key = λ text. ok 1;
  dial = λ addr cfg s. dial_one s;
  new_sftp = λ conn s. (ok silent, s);
}

shuts : (s b : Bool) → false ≡ (not b && (s && b))
shuts true true = refl
shuts true false = refl
shuts false true = refl
shuts false false = refl

only : (b : Bool) → (true && b) ≡ (b || (false && b))
only true = refl
only false = refl

library-IsSsh : IsSsh open_now library
library-IsSsh = record {
  dial = λ addr cfg s. dials s;
  new_sftp = λ conn s. (refl, silent-IsQuiet, (λ u. refl));
}
  where
    dials : (s : Bool) → SshDials open_now s (dial_one s)
    dials true = λ k. refl
    dials false = (0, (λ s k. shuts s (nat_eq k 0)), (refl, λ k. only (nat_eq k 0)))

abbrev over_ssh : FlushService Db Bool
over_ssh = record {
  flush_repository = db_flush_repository;
  dialer = ssh_dialer library;
  send = λ event s. (ok tt, s);
}

-- the second machine cannot be dialed
refused : (flush_watcher over_ssh "docs" (db, false)).0 ≡ err internal
unfolding flush_watcher run list_pending_flushes transfer_all transfer_pending_file get ssh_dialer
refused = refl

flush_watcher-connections_example :
    open_now (flush_watcher over_ssh "docs" (db, false)).1.1 0 ≡ open_now false 0
flush_watcher-connections_example =
    flush_watcher-connections open_now library library-IsSsh db_flush_repository
      (λ event s. (ok tt, s)) "docs" db false 0

ports : (port_text 22 ≡ "22") × (port_text 4294967295 ≡ "-1")
unfolding port_text
ports = (refl, refl)

-- two syncs, the second of which cannot connect, since the first has left its connection open
abbrev twice : List (SyncJob Db × (Machine × Bool))
twice = (db_job docs tree, (nas, false)) ∷ (db_job docs tree, (nas, false)) ∷ []

one_connects : connected library (λ c s. tree) no_rules twice (db, false) ≡ 1
unfolding connected run_over_ssh open_remote_fs
one_connects = refl

after_syncs-Leaks_example :
    Leaks open_now
      (connected library (λ c s. tree) no_rules twice (db, false))
      false
      (after_syncs library (λ c s. tree) no_rules twice (db, false)).1
after_syncs-Leaks_example =
    after_syncs-Leaks open_now library (λ c s. tree) no_rules library-IsSsh twice db false
