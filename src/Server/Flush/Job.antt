-- ===== src/Server/Flush/Job.antt =====
-- server/flush/flush.go: FlushJob and its Run. `D` is the state of the database, `R` that of the
-- machines and of the client that gets the messages.
use tiny_file_watcher.Prelude.{ℕ, String, Bool, true, List, [], ◌∷◌}
use tiny_file_watcher.Internal.FilePath.{join}
use tiny_file_watcher.Server.Outcome.{
  Result, ok, err, Exec, DbError, pure, or_status, map_err, ◌>>=◌, ◌>>◌,
}
use tiny_file_watcher.Server.Database.{Machine}
use tiny_file_watcher.Server.Database.Files.{PendingFlush}
use tiny_file_watcher.Server.Database.Repositories.{FlushRepository}
use tiny_file_watcher.Server.Flush.Transfer.{
  SftpDialer, MachineConfig, TransferError, Pool, transfer_file, on_remote, get, close_all,
}

pub data FlushError : Type 0 where
  list_pending : DbError → FlushError
  connect_source connect_target : FlushError
  transfer : TransferError → FlushError
  mark_flushed : DbError → FlushError

pub record FlushJob (D R : Type 0) : Type 0 where
  pub watcher_name : String
  pub flush_repository : FlushRepository D
  pub dialer : SftpDialer R
  -- the callback; the identity if none is set
  pub on_log : String → R → R

abbrev pub config : Machine → MachineConfig
config m = record {
  name = m.name;
  ip = m.ip;
  ssh_port = m.ssh_port;
  ssh_user = m.ssh_user;
  ssh_private_key_path = m.ssh_private_key_path;
}

-- an error with the step's own error in it
abbrev pub wrap : {E F S A : Type 0} → (E → F) → Exec E S A → Exec F S A
wrap f m s = let (r, s') = m s in (map_err f r, s')

module _ {D R : Type 0} where
  unfoldable pub transfer_pending_file :
      FlushJob D R → PendingFlush → Exec FlushError (Pool R) (Unit {0})
  transfer_pending_file j pf = do
    src_client ← or_status connect_source (get j.dialer (config pf.machine))
    dst_client ← or_status connect_target (get j.dialer (config pf.target_machine))
    wrap transfer (
        on_remote (
          transfer_file src_client dst_client (join pf.file_path pf.file_name)
            (join pf.target_path pf.file_name)))

  -- the loop over the pending files, which collects their ids
  unfoldable pub transfer_all : FlushJob D R → List PendingFlush → Exec FlushError (Pool R) (List ℕ)
  transfer_all j [] = pure []
  transfer_all j (pf ∷ pfs) = do
    transfer_pending_file j pf
    ids ← transfer_all j pfs
    pure (pf.watched_file_id ∷ ids)

  -- the rest of Run once the files are transferred
  abbrev pub mark : FlushJob D R → Result FlushError (List ℕ) → Exec FlushError D Bool
  mark j (err e) d = (err e, d)
  mark j (ok ids) d =
      (wrap mark_flushed (j.flush_repository.flush_watched_files ids) >> pure true) d

  abbrev pub flush_pending : FlushJob D R → List PendingFlush → Exec FlushError (D × R) Bool
  flush_pending j [] (d, r) = (ok true, (d, j.on_log "no pending flushes" r))
  flush_pending j (pf ∷ pfs) (d, r) =
      let (ids, pool) =
        transfer_all j (pf ∷ pfs)
          (record { clients = []; remote = j.on_log "found pending flushes" r }) in
      let (result, d') = mark j ids d in (result, (d', close_all pool.clients pool.remote))

  abbrev pub flush_listed :
      FlushJob D R → Result DbError (List PendingFlush) → Exec FlushError (D × R) Bool
  flush_listed j (err e) s = (err (list_pending e), s)
  flush_listed j (ok pending) s = flush_pending j pending s

  unfoldable pub run : FlushJob D R → Exec FlushError (D × R) Bool
  run j (d, r) =
      let (listed, d') = j.flush_repository.list_pending_flushes j.watcher_name d in
      flush_listed j listed (d', r)
