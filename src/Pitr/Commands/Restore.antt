-- ===== src/Pitr/Commands/Restore.antt =====
-- solutions/opengauss/pitr/cli/internal/cmd/restore.go. The goroutines run one after the other, in
-- the order in which they report: `UpdateProgress` blocks each after that (Commands/Nodes).
pub mod Complete
use shardingsphere_on_cloud.Prelude.{
  ℕ, String, ◌<>◌, Bool, true, false, Option, none, some, List, [], ◌∷◌, all, is_empty, ◌==◌, not,
  ◌≡◌, if◌then◌else◌, ◌&&◌,
}
use shardingsphere_on_cloud.Go.{Error, text, cite}
use shardingsphere_on_cloud.Go.Map.{GoMap}
use shardingsphere_on_cloud.Effects.{Prog, panic, pure, fail, call, attempt, on_error, ◌>>=◌, ◌>>◌}
use shardingsphere_on_cloud.Pitr.Model.{StorageNode, DataNode, LsBackup, RestoreIn, RestoreResult}
use shardingsphere_on_cloud.Pitr.Runtime.{Runtime, Flags}
use shardingsphere_on_cloud.Pitr.Agent as Agent
use shardingsphere_on_cloud.Pitr.Proxy.{
  default_db_name, new_shardingsphere_proxy, export_metadata, drop_database, import_metadata,
}
use shardingsphere_on_cloud.Pitr.Storage.{default_root_dir, new_local_storage}
use shardingsphere_on_cloud.Pitr.Commands.Common.{
  default_instance, get_user_approve_in_terminal, first_backup, find_data_node, db_of,
  agent_address, check_agent_server_status, validate,
}

abbrev pub all_completed : List RestoreResult → Bool
all_completed rs = all (λ r. r.status == "Completed") rs

abbrev keys : GoMap → List String
keys [] = []
keys ((k, v) ∷ m) = k ∷ keys m

-- The loop of `restoreDataToSSProxy` over the databases to drop.
unfoldable pub drop_databases : List String → Prog (Unit {0})
drop_databases [] = pure tt
drop_databases (name ∷ names) =
    on_error (cite "drop database failed. err: ") (drop_database name) >> drop_databases names

-- `dn.BackupID` of a data node that was not found is a nil pointer.
abbrev pub add_task :
    StorageNode
    → Option DataNode
    → Prog (List (StorageNode × DataNode))
    → Prog (List (StorageNode × DataNode))
add_task sn none tasks = panic "invalid memory address or nil pointer dereference"
add_task sn (some dn) tasks = tasks >>= λ rest. pure ((sn, dn) ∷ rest)

-- The data node of each storage node. Where one is missing the loop panics before a goroutine that it
-- has started asks an agent server, since `UpdateProgress` first waits two seconds.
unfoldable pub with_data_nodes :
    List DataNode → List StorageNode → Prog (List (StorageNode × DataNode))
with_data_nodes dns [] = pure []
with_data_nodes dns (sn ∷ sns) = add_task sn (find_data_node sn.ip dns) (with_data_nodes dns sns)

module _ (rt : Runtime) (flags : Flags) where
  -- `checkDatabaseExist`: the names that it adds to `databaseNamesExist`
  unfoldable pub check_database_exist : Prog (List String)
  check_database_exist = do
    cluster ← on_error (cite "get cluster metadata failed. err: ") (export_metadata rt)
    pure (keys (rt.visit cluster.meta_data.databases))

  -- `restoreDataToSSProxy`
  unfoldable pub restore_data_to_ss_proxy : List String → LsBackup → Prog (Unit {0})
  restore_data_to_ss_proxy names b = do
    drop_databases names
    on_error (cite "Import metadata to ss-proxy failed. err: ")
        (import_metadata rt b.ss_backup.cluster_info)

  abbrev pub restore_in_of : StorageNode → DataNode → RestoreIn
  restore_in_of sn dn = record {
    db = db_of sn;
    instance_name = default_instance;
    dn_backup_path = flags.backup_path;
    dn_backup_id = dn.backup_id;
    dn_threads_num = flags.threads_num;
  }

  -- `checkProgress`, which ends the polling with its first answer: the result that it sends
  unfoldable pub restore_progress : StorageNode × DataNode → Prog RestoreResult
  restore_progress (sn, dn) =
      attempt (Agent.restore (agent_address flags sn) (restore_in_of sn dn))
        (λ e. pure (record { ip = sn.ip; port = sn.port; status = "Failed: " <> rt.error_text e }))
        (λ _. pure (record { ip = sn.ip; port = sn.port; status = "Completed" }))

  unfoldable pub restore_nodes : List (StorageNode × DataNode) → Prog (List RestoreResult)
  restore_nodes [] = pure []
  restore_nodes (t ∷ ts) = restore_progress t >>= λ r. restore_nodes ts >>= λ rs. pure (r ∷ rs)

  -- `execRestore`
  unfoldable pub exec_restore : LsBackup → Prog (Unit {0})
  exec_restore b =
      if is_empty b.ss_backup.storage_nodes
      then fail
          (text ("no storage node found, please check backup record [" <> (b.info.id <> "].")))
      else (do
        tasks ← with_data_nodes b.dn_list (rt.finish b.ss_backup.storage_nodes)
        results ← restore_nodes tasks
        if all_completed results
            then pure tt
            else fail (text "restore failed, please check the log for more details."))

  -- `restore` after the prompt
  unfoldable pub restore_approved : List String → LsBackup → Prog (Unit {0})
  restore_approved names b = do
    available ← check_agent_server_status flags b
    if not available then fail (text "one or more agent server are not available.") else (do
      on_error (cite "exec restore failed. err: ") (exec_restore b)
      on_error (cite "restore metadata to shardingsphere proxy failed. err: ")
          (restore_data_to_ss_proxy names b))

  -- `restore`
  unfoldable pub restore : Prog (Unit {0})
  restore = do
    dir ←
        on_error (cite "new local storage failed. err: ")
          (new_local_storage rt (default_root_dir rt))
    on_error (cite "new ss-proxy failed. err: [") (
        new_shardingsphere_proxy flags.username flags.password default_db_name flags.host
          flags.port)
    baks ← validate flags rt dir
    bak ← first_backup baks
    names ← on_error (cite "check database exist failed. err: ") check_database_exist
    on_error (cite "") get_user_approve_in_terminal
    restore_approved names bak

  -- `RestoreCmd.Run`: with neither or both of the two flags it only logs, and so it does with an error.
  unfoldable pub restore_cmd : Prog (Unit {0})
  restore_cmd =
      if (flags.csn == "") && (flags.record_id == "")
      then pure tt
      else if not (flags.csn == "") && not (flags.record_id == "")
      then pure tt
      else attempt restore (λ _. pure tt) (λ _. pure tt)
