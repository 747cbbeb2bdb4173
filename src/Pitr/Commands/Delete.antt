-- ===== src/Pitr/Commands/Delete.antt =====
-- solutions/opengauss/pitr/cli/internal/cmd/delete.go. The goroutines run one after the other, in
-- the order in which they report: `UpdateProgress` blocks each after that (Commands/Nodes).
pub mod Complete
use shardingsphere_on_cloud.Prelude.{
  String, Bool, true, false, Option, none, some, List, [], ◌∷◌, all, is_empty, ◌==◌, not, ◌&&◌,
  if◌then◌else◌,
}
use shardingsphere_on_cloud.Go.{text, cite}
use shardingsphere_on_cloud.Effects.{Prog, pure, fail, attempt, on_error, ◌>>=◌, ◌>>◌}
use shardingsphere_on_cloud.Pitr.Model.{
  completed, failed, StorageNode, DataNode, LsBackup, DeleteBackupResult,
}
use shardingsphere_on_cloud.Pitr.Runtime.{Runtime, Flags}
use shardingsphere_on_cloud.Pitr.Agent as Agent
use shardingsphere_on_cloud.Pitr.Storage.{
  default_root_dir, new_local_storage, hide_by_name, delete_by_hided_name,
}
use shardingsphere_on_cloud.Pitr.Commands.Common.{
  get_user_approve_in_terminal, first_backup, find_data_node, agent_address,
  check_agent_server_status, validate,
}
use shardingsphere_on_cloud.Pitr.Commands.Backup.{delete_backup_of}

abbrev pub all_deleted : List DeleteBackupResult → Bool
all_deleted rs = all (λ r. r.status == "Completed") rs

module _ (rt : Runtime) (flags : Flags) where
  -- `checkProgress`, which ends the polling with its first answer: the result that it sends
  unfoldable pub delete_progress : StorageNode → DataNode → Prog DeleteBackupResult
  delete_progress sn dn =
      attempt (Agent.delete_backup (agent_address flags sn) (delete_backup_of rt flags sn dn))
        (λ e. pure (record { ip = sn.ip; port = sn.port; status = failed; msg = rt.error_text e }))
        (λ _. pure (record { ip = sn.ip; port = sn.port; status = completed; msg = "" }))

  -- A storage node without a data node is skipped.
  abbrev pub add_deletion :
      StorageNode
      → Option DataNode
      → Prog (List DeleteBackupResult)
      → Prog (List DeleteBackupResult)
  add_deletion sn none rest = rest
  add_deletion sn (some dn) rest = delete_progress sn dn >>= λ r. rest >>= λ rs. pure (r ∷ rs)

  -- The loop of `_execDelete`
  unfoldable pub delete_tasks : List DataNode → List StorageNode → Prog (List DeleteBackupResult)
  delete_tasks dns [] = pure []
  delete_tasks dns (sn ∷ sns) = add_deletion sn (find_data_node sn.ip dns) (delete_tasks dns sns)

  -- `_execDelete`
  unfoldable pub exec_delete : LsBackup → Prog (Unit {0})
  exec_delete b = if is_empty b.ss_backup.storage_nodes then pure tt else (do
    results ← delete_tasks b.dn_list (rt.finish b.ss_backup.storage_nodes)
    if all_deleted results
        then pure tt
        else fail (text "delete failed, please check the log for more details."))

  -- `deleteRecord` after the prompt: the record is hidden, its backups are deleted, and then it is.
  unfoldable pub delete_approved : (dir : String) → LsBackup → Prog (Unit {0})
  delete_approved dir b =
      attempt (hide_by_name dir b.info.file_name) (λ _. fail (text "cannot mark backup record."))
        (λ _.
          on_error (cite "exec delete failed. err: ") (exec_delete b)
          >> on_error (cite "exec delete backup record failed. err: ")
              (delete_by_hided_name dir b.info.file_name))

  -- `deleteRecord`
  unfoldable pub delete_record : Prog (Unit {0})
  delete_record = do
    dir ←
        on_error (cite "new local storage failed. err: ")
          (new_local_storage rt (default_root_dir rt))
    baks ← validate flags rt dir
    bak ← first_backup baks
    available ← check_agent_server_status flags bak
    if not available
        then fail (text "one or more agent server are not available.")
        else (on_error (cite "") get_user_approve_in_terminal >> delete_approved dir bak)

  -- `DeleteCmd.Run`: with neither or both of the two flags it only logs, and so it does with an error.
  unfoldable pub delete_cmd : Prog (Unit {0})
  delete_cmd =
      if (flags.csn == "") && (flags.record_id == "")
      then pure tt
      else if not (flags.csn == "") && not (flags.record_id == "")
      then pure tt
      else attempt delete_record (λ _. pure tt) (λ _. pure tt)
