-- ===== src/Server/Ssh.antt =====
-- server/ssh/client.go: the SSH connection to a machine with the SFTP client on it. `N` is the state
-- of what is outside: the network, the machines and the files of the server.
use Prim.Native.String.{◌++◌ as append}
use tiny_file_watcher.Prelude.{
  ℕ, ◌-◌, ◌^◌, String, Option, none, some, List, [], ◌∷◌, ltb, if◌then◌else◌,
}
use tiny_file_watcher.Internal.Strconv.{itoa}
use tiny_file_watcher.Server.Outcome.{Result, ok, err, Exec, pure, lift, or_status, ◌>>=◌}
use tiny_file_watcher.Server.Flush.Transfer.{SftpClient, MachineConfig}

pub record SshConn (N : Type 0) : Type 0 where
  pub close : N → N

pub data KeyError : Type 0 where
  read_private_key parse_private_key_failed : KeyError

-- ssh.ClientConfig: the user and the callback that gives the keys, which are of type `K`; any key of
-- the host is accepted
pub record ClientConfig (N K : Type 0) : Type 0 where
  pub user : String
  pub public_keys : Exec KeyError N (List K)

-- golang.org/x/crypto/ssh, github.com/pkg/sftp and os.ReadFile
pub record Library (N K : Type 0) : Type 0 where
  pub read_file : String → Exec (Unit {0}) N String
  pub parse_private_key : String → Result (Unit {0}) K
  pub dial : String → ClientConfig N K → Exec (Unit {0}) N (SshConn N)
  pub new_sftp : SshConn N → Exec (Unit {0}) N (SftpClient N)

-- Client; its two parts are pointers
pub record Client (N : Type 0) : Type 0 where
  pub ssh_conn : Option (SshConn N)
  pub sftp_client : Option (SftpClient N)

pub data SshError : Type 0 where
  ssh_dial sftp_client_failed : SshError

-- strconv.Itoa of an int32
unfoldable pub port_text : ℕ → String
unfolding itoa
port_text port = if ltb port (2 ^ 31) then itoa port else append "-" (itoa (2 ^ 32 - port))

module _ {N : Type 0} where
  abbrev close_sftp : Option (SftpClient N) → N → N
  close_sftp none s = s
  close_sftp (some c) s = c.close s

  abbrev close_conn : Option (SshConn N) → N → N
  close_conn none s = s
  close_conn (some c) s = c.close s

  unfoldable pub close : Client N → N → N
  close c s = close_conn c.ssh_conn (close_sftp c.sftp_client s)

module _ {N K : Type 0} (lib : Library N K) where
  -- the callback of ssh.PublicKeysCallback
  unfoldable pub public_keys : MachineConfig → Exec KeyError N (List K)
  public_keys cfg = do
    key_bytes ← or_status read_private_key (lib.read_file cfg.ssh_private_key_path)
    key ← or_status parse_private_key_failed (lift (lib.parse_private_key key_bytes))
    pure (key ∷ [])

  unfoldable pub address : MachineConfig → String
  unfolding port_text
  address cfg = append cfg.ip (append ":" (port_text cfg.ssh_port))

  -- what follows the dial: without an SFTP client the connection is closed
  abbrev pub with_sftp :
      SshConn N → Result (Unit {0}) (SftpClient N) × N → Result SshError (Client N) × N
  with_sftp conn (ok c, s) = (ok (record { ssh_conn = some conn; sftp_client = some c }), s)
  with_sftp conn (err e, s) = (err sftp_client_failed, conn.close s)

  unfoldable pub new_client : MachineConfig → Exec SshError N (Client N)
  unfolding public_keys address
  new_client cfg = do
    conn ←
        or_status ssh_dial
          (lib.dial (address cfg) (record { user = cfg.ssh_user; public_keys = public_keys cfg }))
    λ s. with_sftp conn (lib.new_sftp conn s)
