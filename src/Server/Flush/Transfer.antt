-- ===== src/Server/Flush/Transfer.antt =====
-- server/flush/flush.go: transferFile and the pool of connections, over the interfaces SFTPClient
-- and SFTPDialer of server/flush/service.go. `R` is the state of the machines.
use tiny_file_watcher.Prelude.{
  ℕ, String, Bool, true, false, if◌then◌else◌, List, [], ◌∷◌, Option, none, some, ◌==◌,
}
use tiny_file_watcher.Internal.FilePath.{dir}
use tiny_file_watcher.Server.Outcome.{ok, Exec, pure, fail, or_status, ◌>>=◌, ◌>>◌}

-- what Stat returns, as far as it is used
pub record FileInfo : Type 0 where
  pub mode : ℕ
  pub mod_time : ℕ

-- an opened source: what io.Copy can read of it, and whether that is all
pub record Reader (R : Type 0) : Type 0 where
  pub read : R → (String × Bool) × R
  pub close : R → R

pub record Writer (R : Type 0) : Type 0 where
  pub write : String → Exec (Unit {0}) R (Unit {0})
  pub close : R → R

pub record SftpClient (R : Type 0) : Type 0 where
  pub stat : String → Exec (Unit {0}) R FileInfo
  pub mkdir_all : String → Exec (Unit {0}) R (Unit {0})
  pub open_file : String → Exec (Unit {0}) R (Reader R)
  pub create : String → Exec (Unit {0}) R (Writer R)
  pub chmod : String → ℕ → Exec (Unit {0}) R (Unit {0})
  pub chtimes : String → ℕ → ℕ → Exec (Unit {0}) R (Unit {0})
  pub close : R → R

pub record MachineConfig : Type 0 where
  pub name : String
  pub ip : String
  pub ssh_port : ℕ
  pub ssh_user : String
  pub ssh_private_key_path : String

abbrev pub SftpDialer : Type 0 → Type 0
SftpDialer R = MachineConfig → Exec (Unit {0}) R (SftpClient R)

-- the step at which a transfer fails
pub data TransferError : Type 0 where
  stat_source mkdir_destination open_source create_destination copy_data chmod_destination
        chtimes_destination :
      TransferError

module _ {R : Type 0} where
  -- a deferred call
  abbrev pub deferred : {E A : Type 0} → (R → R) → Exec E R A → Exec E R A
  deferred after m s = let (r, s') = m s in (r, after s')

  abbrev finish_copy : Bool → Exec (Unit {0}) R (Unit {0})
  finish_copy true = pure tt
  finish_copy false = fail tt

  -- io.Copy
  unfoldable pub copy : Writer R → Reader R → Exec (Unit {0}) R (Unit {0})
  copy out src s = let (part, s') = src.read s in (out.write part.0 >> finish_copy part.1) s'

  unfoldable pub transfer_file :
      SftpClient R → SftpClient R → String → String → Exec TransferError R (Unit {0})
  unfolding copy
  transfer_file src_client dst_client src dst = do
    src_info ← or_status stat_source (src_client.stat src)
    or_status mkdir_destination (dst_client.mkdir_all (dir dst))
    reader ← or_status open_source (src_client.open_file src)
    deferred reader.close (do
      writer ← or_status create_destination (dst_client.create dst)
      deferred writer.close (do
        or_status copy_data (copy writer reader)
        or_status chmod_destination (dst_client.chmod dst src_info.mode)
        or_status chtimes_destination (dst_client.chtimes dst src_info.mod_time src_info.mod_time)))

-- the open connections by the machine's name, and the machines
pub record Pool (R : Type 0) : Type 0 where
  pub clients : List (String × SftpClient R)
  pub remote : R

module _ {R : Type 0} where
  abbrev pub cached : String → List (String × SftpClient R) → Option (SftpClient R)
  cached name [] = none
  cached name ((k, c) ∷ cs) = if k == name then some c else cached name cs

  -- a call on the machines
  abbrev pub on_remote : {E A : Type 0} → Exec E R A → Exec E (Pool R) A
  on_remote m p = let (r, s) = m p.remote in (r, record p { remote = s })

  abbrev keep_client : String → SftpClient R → Exec (Unit {0}) (Pool R) (SftpClient R)
  keep_client name c p = (ok c, record p { clients = (name, c) ∷ p.clients })

  -- clientPool.get
  unfoldable pub get : SftpDialer R → MachineConfig → Exec (Unit {0}) (Pool R) (SftpClient R)
  get dial cfg p = elim (cached cfg.name p.clients) [
    | some c ↦ (ok c, p)
    | none ↦ (on_remote (dial cfg) >>= keep_client cfg.name) p
  ]

  unfoldable pub close_all : List (String × SftpClient R) → R → R
  close_all [] s = s
  close_all ((k, c) ∷ cs) s = close_all cs (c.close s)
