-- ===== src/Server/Watcher/Remote.antt =====
-- server/watcher/sync.go: openRemoteFS over server/ssh/client.go, and Run as it is called then. `N`
-- is the state of the network and `S` that of the database.
pub mod Leaks
pub mod Sequences
use tiny_file_watcher.Prelude.{String, Bool, Option, none, some, List}
use tiny_file_watcher.Server.Outcome.{Result, ok, err, Exec}
use tiny_file_watcher.Server.Database.{Machine}
use tiny_file_watcher.Server.Flush.Transfer.{SftpClient}
use tiny_file_watcher.Server.Flush.Job.{config}
use tiny_file_watcher.Server.Ssh.{Library, Client, SshError, new_client}
use tiny_file_watcher.Server.Watcher.Walk.{RemoteFs}
use tiny_file_watcher.Server.Watcher.Sync
use tiny_file_watcher.Server.Watcher.Sync.{SyncJob, SyncError, SyncResult}

-- pkg/sftp: the file system that a client shows
abbrev pub View : Type 0 → Type 0
View N = SftpClient N → N → RemoteFs

module _ {N K : Type 0} (lib : Library N K) (view : View N) where
  -- sftpRemoteFS; NewClient always gives an SFTP client
  abbrev sftp_remote_fs : Option (SftpClient N) → N → Result (Unit {0}) RemoteFs
  sftp_remote_fs none n = err tt
  sftp_remote_fs (some c) n = ok (view c n)

  abbrev pub viewed : Result SshError (Client N) × N → Result (Unit {0}) RemoteFs × N
  viewed (ok c, n) = (sftp_remote_fs c.sftp_client n, n)
  viewed (err e, n) = (err tt, n)

  unfoldable pub open_remote_fs : Machine → N → Result (Unit {0}) RemoteFs × N
  unfolding new_client
  open_remote_fs machine n = viewed (new_client lib (config machine) n)

  unfoldable pub run_over_ssh :
      {S : Type 0}
      → (List String → String → Bool)
      → SyncJob S
      → Machine
      → Bool
      → Exec SyncError (S × N) SyncResult
  unfolding open_remote_fs
  run_over_ssh compile j machine flush (s, n) =
      let (rfs, n') = open_remote_fs machine n in
      let (result, s') = Sync.run compile (record j { remote = rfs }) flush s in (result, (s', n'))
