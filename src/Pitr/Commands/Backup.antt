-- ===== src/Pitr/Commands/Backup.antt =====
-- solutions/opengauss/pitr/cli/internal/cmd/backup.go: `backup` and its deferred clean-up, over the
-- steps of Pitr/Commands/Nodes.
pub mod Lock
pub mod Answers
pub mod Polling
use shardingsphere_on_cloud.Prelude.{
  ℕ, zero, suc, String, ◌<>◌, Bool, true, false, Option, none, some, List, [], ◌∷◌, ◌++◌, map, all,
  is_empty, ◌==◌, ◌&&◌, ◌||◌, not, if◌then◌else◌,
}
use shardingsphere_on_cloud.Go.{Error, text, cite}
use shardingsphere_on_cloud.Go.Number.{decimal}
use shardingsphere_on_cloud.Effects.{
  Prog, panic, pure, fail, call, attempt, on_error, ◌>>=◌, ◌>>◌, pitr,
}
use shardingsphere_on_cloud.Pitr.Model.{
  BackupStatus, waiting, running, completed, failed, check_error, canceled, StorageNode, DataNode,
  LsBackup, ClusterInfo, SnapshotInfo, BackupIn, ShowDetailIn, DeleteBackupIn,
}
use shardingsphere_on_cloud.Pitr.Requests.{new_uuid}
use shardingsphere_on_cloud.Pitr.Runtime.{Runtime, Flags}
use shardingsphere_on_cloud.Pitr.Agent as Agent
use shardingsphere_on_cloud.Pitr.Proxy.{
  default_db_name, new_shardingsphere_proxy, lock_for_backup, unlock, export_metadata,
  export_storage_nodes,
}
use shardingsphere_on_cloud.Pitr.Storage.{
  extn_json, default_root_dir, gen_filename, new_local_storage, write_by_json, delete_by_name,
}
use shardingsphere_on_cloud.Pitr.Commands.Common.{
  default_instance, certain, now_text, get_user_approve_in_terminal, find_data_node, db_of,
  agent_address, check_agent_server_status, check_disk_space,
}
use shardingsphere_on_cloud.Pitr.Commands.Nodes.{check_backup_status, exec_backup, export_data}

-- How the body of `backup` ends: with an error it leaves to the deferred function the record and
-- the name of its file, if there is one.
pub data Ending : Type 0 where
  finished : Ending
  stopped : Error → Option (String × LsBackup) → Ending

module _ (rt : Runtime) (flags : Flags) where
  abbrev pub delete_backup_of : StorageNode → DataNode → DeleteBackupIn
  delete_backup_of sn dn = record {
    db = db_of sn;
    dn_backup_path = flags.backup_path;
    backup_id = dn.backup_id;
    instance_name = default_instance;
  }

  -- `doDelete`, whose result nobody reads in the quiet mode
  unfoldable pub do_delete : StorageNode → DataNode → Prog (Unit {0})
  do_delete sn dn =
      attempt (Agent.delete_backup (agent_address flags sn) (delete_backup_of sn dn)) (λ _. pure tt)
        (λ _. pure tt)

  -- The loop of `deleteBackupFiles`
  unfoldable pub delete_nodes : List DataNode → List StorageNode → Prog (Unit {0})
  delete_nodes dns [] = pure tt
  delete_nodes dns (sn ∷ sns) =
      elim (find_data_node sn.ip dns) [ none ↦ pure tt | some dn ↦ do_delete sn dn ]
      >> delete_nodes dns sns

  -- `deleteBackupFiles` in the quiet mode, which `backup` calls
  unfoldable pub delete_backup_files : (dir filename : String) → LsBackup → Prog (Unit {0})
  delete_backup_files dir filename b =
      if is_empty b.ss_backup.storage_nodes
      then pure tt
      else (delete_nodes b.dn_list (rt.before_exit b.ss_backup.storage_nodes)
          >> attempt (delete_by_name dir filename) (λ _. pure tt) (λ _. pure tt))

  -- The deferred function of `backup`, and what it returns
  unfoldable pub clean_up : String → Ending → Prog (Unit {0})
  clean_up dir finished = pure tt
  clean_up dir (stopped e left) =
      attempt unlock (λ _. pure tt) (λ _. pure tt)
      >> (elim left [ none ↦ pure tt | some (filename, b) ↦ delete_backup_files dir filename b ]
          >> fail e)

  -- Steps 8 and 9 of `backup`
  unfoldable pub await_backup : ℕ → (dir filename : String) → LsBackup → Prog Ending
  await_backup ticks dir filename b = check_backup_status rt flags ticks b >>= λ r.
      if not (r.1 == completed) && not (r.1 == canceled)
      then pure (stopped (text "Backup failed") (some (filename, r.0)))
      else attempt (write_by_json rt dir filename r.0)
          (λ e. pure (stopped (cite "update backup file failed. err: " e) (some (filename, r.0))))
          (λ _. pure finished)

  -- Steps 6 and 7
  unfoldable pub release_cluster : ℕ → (dir filename : String) → LsBackup → Prog Ending
  release_cluster ticks dir filename b =
      attempt unlock
        (λ e. pure (stopped (cite "unlock cluster failed. err: " e) (some (filename, b))))
        (λ _.
          attempt (write_by_json rt dir filename b)
            (λ e. pure (stopped (cite "update backup file failed. err: " e) (some (filename, b))))
            (λ _. await_backup ticks dir filename b))

  -- Step 5
  unfoldable pub start_backup : ℕ → (dir filename : String) → LsBackup → Prog Ending
  start_backup ticks dir filename b = exec_backup rt flags b >>= λ r. elim r.1 [
    | some e ↦ pure (stopped (cite "exec backup failed. err: " e) (some (filename, r.0)))
    | none ↦ release_cluster ticks dir filename r.0
  ]

  -- Steps 3 and 4, and the prompt
  unfoldable pub prepare_backup : ℕ → (dir filename : String) → LsBackup → Prog Ending
  prepare_backup ticks dir filename b = check_agent_server_status flags b >>= λ available.
      if not available
      then pure (stopped (text "One or more agent server are not available.") (some (filename, b)))
      else (check_disk_space flags b
          >> (attempt get_user_approve_in_terminal
              (λ e. pure (stopped (cite "" e) (some (filename, b))))
              (λ _. start_backup ticks dir filename b)))

  -- Steps 1 and 2
  unfoldable pub lock_and_export : ℕ → String → Prog Ending
  lock_and_export ticks dir =
      attempt lock_for_backup (λ e. pure (stopped (cite "Lock for backup failed. err: " e) none))
        (λ _.
          attempt (export_data rt flags dir)
            (λ e. pure (stopped (cite "export backup data failed. err: " e) none))
            (λ r. prepare_backup ticks dir r.0 r.1))

  -- `backup`
  unfoldable pub backup : ℕ → Prog (Unit {0})
  backup ticks = do
    on_error (cite "Connect shardingsphere proxy failed, err: ") (
        new_shardingsphere_proxy flags.username flags.password default_db_name flags.host
          flags.port)
    dir ←
        on_error (cite "Create local storage failed. err: ")
          (new_local_storage rt (default_root_dir rt))
    ending ← lock_and_export ticks dir
    clean_up dir ending

  -- `BackupCmd.Run`, which logs an error
  unfoldable pub backup_cmd : ℕ → Prog (Unit {0})
  backup_cmd ticks = attempt (backup ticks) (λ _. pure tt) (λ _. pure tt)
