-- ===== src/Server/Flush/Dialer.antt =====
-- server/flush/service.go: sshDialer and sshSFTPClient, the connections of flushes in production.
pub mod Quiet
pub mod Balance
pub mod Connections
use tiny_file_watcher.Prelude.{Option, none, some}
use tiny_file_watcher.Server.Outcome.{Result, ok, err, Exec, fail}
use tiny_file_watcher.Server.Flush.Transfer.{SftpClient, SftpDialer}
use tiny_file_watcher.Server.Ssh
use tiny_file_watcher.Server.Ssh.{Library, Client, SshError, close, new_client}

module _ {N : Type 0} where
  -- a call of the SFTP client, of which NewClient always gives one
  abbrev on_sftp :
      {A : Type 0}
      → (SftpClient N → Exec (Unit {0}) N A)
      → Option (SftpClient N)
      → Exec (Unit {0}) N A
  on_sftp f none = fail tt
  on_sftp f (some c) = f c

  unfoldable pub ssh_sftp_client : Client N → SftpClient N
  ssh_sftp_client c = record {
    stat = λ path. on_sftp (λ x. x.stat path) c.sftp_client;
    mkdir_all = λ path. on_sftp (λ x. x.mkdir_all path) c.sftp_client;
    open_file = λ path. on_sftp (λ x. x.open_file path) c.sftp_client;
    create = λ path. on_sftp (λ x. x.create path) c.sftp_client;
    chmod = λ path mode. on_sftp (λ x. x.chmod path mode) c.sftp_client;
    chtimes = λ path atime mtime. on_sftp (λ x. x.chtimes path atime mtime) c.sftp_client;
    close = Ssh.close c;
  }

  abbrev wrapped : Result SshError (Client N) × N → Result (Unit {0}) (SftpClient N) × N
  wrapped (ok c, s) = (ok (ssh_sftp_client c), s)
  wrapped (err e, s) = (err tt, s)

  unfoldable pub ssh_dialer : {K : Type 0} → Library N K → SftpDialer N
  unfolding ssh_sftp_client new_client
  ssh_dialer lib cfg s = wrapped (new_client lib cfg s)
