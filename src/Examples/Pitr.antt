-- ===== src/Examples/Pitr.antt =====
-- The PITR command line at concrete inputs.
use shardingsphere_on_cloud.Prelude.{◌≡◌, ◌⊎◌, refl, false, none, some, [], ◌∷◌, All}
use shardingsphere_on_cloud.Go.{ok}
use shardingsphere_on_cloud.Go.Number.{decimal}
use shardingsphere_on_cloud.Effects.{attempt}
use shardingsphere_on_cloud.Effects.Run.{run, run_from}
use shardingsphere_on_cloud.Effects.Avoids.{Fails, Precedes, occurs}
use shardingsphere_on_cloud.Effects.Releasing.{IsReleased}
use shardingsphere_on_cloud.Effects.Succeeds.{Answered}
use shardingsphere_on_cloud.Pitr.Kinds.{removes_file}
use shardingsphere_on_cloud.Pitr.Model.{DataNode}
use shardingsphere_on_cloud.Pitr.Agent as Agent
use shardingsphere_on_cloud.Pitr.Agent.{post}
use shardingsphere_on_cloud.Pitr.Proxy.{
  drop_database, import_metadata, new_shardingsphere_proxy, lock_for_backup, unlock,
  export_metadata, export_storage_nodes, read_rows, filter_duplicates,
}
use shardingsphere_on_cloud.Pitr.Storage.{new_local_storage, init_dir, gen_filename, write_by_json}
use shardingsphere_on_cloud.Pitr.Commands.Nodes.{
  export_data, backed_up, exec_backup_node, exec_backup_nodes, exec_backup, polled, check_progress,
  poll, poll_node, poll_nodes, check_backup_status,
}
use shardingsphere_on_cloud.Pitr.Commands.Backup.{
  clean_up, await_backup, release_cluster, start_backup, prepare_backup, lock_and_export, backup,
}
use shardingsphere_on_cloud.Pitr.Commands.Backup.Lock.{is_lock, is_unlock, backup-IsReleased}
use shardingsphere_on_cloud.Pitr.Commands.Common.{
  find_data_node, check_agents, check_agent_server_status, has_duplicate, convert_localhost,
  show_disk_spaces, check_disk_space, get_user_approve_in_terminal,
}
use shardingsphere_on_cloud.Pitr.Commands.Restore.{
  restore_approved, exec_restore, with_data_nodes, restore_nodes, restore_progress,
  restore_data_to_ss_proxy, drop_databases, restore,
}
use shardingsphere_on_cloud.Pitr.Commands.Delete.{delete_approved, delete_record}
use shardingsphere_on_cloud.Pitr.Commands.Declined.{changes, declined_changes_nothing}
use shardingsphere_on_cloud.Pitr.Commands.Restore.Complete.{Restores, restore_approved-Answered}
use shardingsphere_on_cloud.Pitr.Commands.Delete.Complete.{
  hides_record, deletes_backup, Deletes, delete_approved-Answered,
}
use shardingsphere_on_cloud.Examples.PitrData.{backup_record, rt, flags, env}

declined_changes_nothing_example :
    All (Fails changes) (run (env "no") (restore rt flags)).1
    × All (Fails changes) (run (env "no") (delete_record rt flags)).1
declined_changes_nothing_example =
    declined_changes_nothing (env "no") "no" (λ h. refl) refl rt flags

restore_approved-Answered_example :
    All
      (λ sn.
        (dn : DataNode) × (find_data_node sn.ip backup_record.dn_list ≡ some dn)
        × Answered
            (env "yes")
            (Restores rt flags (sn, dn))
            (run (env "yes") (restore_approved rt flags ("orders" ∷ []) backup_record)).1)
      backup_record.ss_backup.storage_nodes
unfolding run run_from attempt restore_approved exec_restore with_data_nodes restore_nodes
    restore_progress restore_data_to_ss_proxy drop_databases drop_database import_metadata
    find_data_node check_agents check_agent_server_status has_duplicate convert_localhost post
    Agent.restore Agent.check_status
restore_approved-Answered_example =
    restore_approved-Answered rt flags (env "yes") ("orders" ∷ []) backup_record (λ sn m. m) refl

delete_approved-Answered_example :
    Precedes
      (hides_record "/backup" backup_record)
      deletes_backup
      (run (env "yes") (delete_approved rt flags "/backup" backup_record)).1
    × ((occurs removes_file (run (env "yes") (delete_approved rt flags "/backup" backup_record)).1
          ≡ false)
        ⊎ All
            (λ sn.
              (find_data_node sn.ip backup_record.dn_list ≡ none)
              ⊎ ((dn : DataNode) × (find_data_node sn.ip backup_record.dn_list ≡ some dn)
                  × Answered
                      (env "yes")
                      (Deletes rt flags (sn, dn))
                      (run (env "yes") (delete_approved rt flags "/backup" backup_record)).1))
            backup_record.ss_backup.storage_nodes)
delete_approved-Answered_example =
    delete_approved-Answered rt flags (env "yes") "/backup" backup_record (λ sn m. m)

backup-IsReleased_example : IsReleased is_lock is_unlock (run (env "yes") (backup rt flags 5)).1
unfolding run run_from attempt new_shardingsphere_proxy new_local_storage init_dir lock_for_backup
    unlock export_metadata export_storage_nodes read_rows filter_duplicates gen_filename
    write_by_json check_agents check_agent_server_status has_duplicate convert_localhost
    show_disk_spaces check_disk_space get_user_approve_in_terminal find_data_node export_data
    backed_up exec_backup_node exec_backup_nodes exec_backup polled check_progress poll poll_node
    poll_nodes check_backup_status clean_up await_backup release_cluster start_backup prepare_backup
    lock_and_export backup post Agent.backup Agent.check_status Agent.show_detail
    Agent.show_disk_space decimal
backup-IsReleased_example = backup-IsReleased rt flags (env "yes") 5 (ok tt) refl
