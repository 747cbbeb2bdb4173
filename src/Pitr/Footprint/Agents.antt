-- ===== src/Pitr/Footprint/Agents.antt =====
-- The kinds of request that `execRestore` and `_execDelete` avoid.
use shardingsphere_on_cloud.Prelude.{◌≡◌, Bool, false, Option, none, some, List, [], ◌∷◌, is_empty}
use shardingsphere_on_cloud.Effects.{Prog, pure, fail}
use shardingsphere_on_cloud.Effects.Avoids.{Avoids, Avoids-attempt, Avoids-bind, Avoids-if}
use shardingsphere_on_cloud.Pitr.Kinds.{PitrKind, of_pitr_kind, restores, deletes}
use shardingsphere_on_cloud.Pitr.Model.{StorageNode, DataNode, LsBackup, DeleteBackupResult}
use shardingsphere_on_cloud.Pitr.Runtime.{Runtime, Flags}
use shardingsphere_on_cloud.Pitr.Agent as Agent
use shardingsphere_on_cloud.Pitr.Commands.Common.{find_data_node}
use shardingsphere_on_cloud.Pitr.Commands.Restore.{
  add_task, with_data_nodes, restore_progress, restore_nodes, exec_restore, all_completed,
}
use shardingsphere_on_cloud.Pitr.Commands.Delete.{
  add_deletion, delete_progress, delete_tasks, exec_delete, all_deleted,
}
use shardingsphere_on_cloud.Pitr.Footprint.{post-Avoids}

module _ (rt : Runtime) (flags : Flags) (s : PitrKind → Bool) where
  add_task-Avoids :
      (sn : StorageNode) (o : Option DataNode) (tasks : Prog (List (StorageNode × DataNode)))
      → Avoids (of_pitr_kind s) tasks
      → Avoids (of_pitr_kind s) (add_task sn o tasks)
  add_task-Avoids sn none tasks a = tt
  add_task-Avoids sn (some dn) tasks a = Avoids-bind (of_pitr_kind s) tasks _ a (λ _. tt)

  with_data_nodes-Avoids :
      (dns : List DataNode) (sns : List StorageNode)
      → Avoids (of_pitr_kind s) (with_data_nodes dns sns)
  unfolding with_data_nodes
  with_data_nodes-Avoids dns [] = tt
  with_data_nodes-Avoids dns (sn ∷ sns) =
      add_task-Avoids sn (find_data_node sn.ip dns) _ (with_data_nodes-Avoids dns sns)

  module _ (no_restores : s restores ≡ false) where
    restore_nodes-Avoids :
        (ts : List (StorageNode × DataNode)) → Avoids (of_pitr_kind s) (restore_nodes rt flags ts)
    unfolding restore_nodes restore_progress Agent.restore
    restore_nodes-Avoids [] = tt
    restore_nodes-Avoids ((sn, dn) ∷ ts) =
        Avoids-bind (of_pitr_kind s) _ _
          (Avoids-attempt (of_pitr_kind s) _ _ _ (post-Avoids s _ _ _ no_restores) (λ _. tt)
            (λ _. tt))
          λ r. Avoids-bind (of_pitr_kind s) _ _ (restore_nodes-Avoids ts) (λ _. tt)

    pub exec_restore-Avoids : (b : LsBackup) → Avoids (of_pitr_kind s) (exec_restore rt flags b)
    unfolding exec_restore
    exec_restore-Avoids b =
        let t = of_pitr_kind s in
        Avoids-if t (is_empty b.ss_backup.storage_nodes) (fail _) _ tt (
          Avoids-bind t _ _ (with_data_nodes-Avoids b.dn_list _) λ ts.
            Avoids-bind t _ _ (restore_nodes-Avoids ts)
              λ rs. Avoids-if t (all_completed rs) (pure tt) (fail _) tt tt)

  module _ (no_deletes : s deletes ≡ false) where
    add_deletion-Avoids :
        (sn : StorageNode) (o : Option DataNode) (rest : Prog (List DeleteBackupResult))
        → Avoids (of_pitr_kind s) rest
        → Avoids (of_pitr_kind s) (add_deletion rt flags sn o rest)
    unfolding delete_progress Agent.delete_backup
    add_deletion-Avoids sn none rest a = a
    add_deletion-Avoids sn (some dn) rest a =
        Avoids-bind (of_pitr_kind s) _ _
          (Avoids-attempt (of_pitr_kind s) _ _ _ (post-Avoids s _ _ _ no_deletes) (λ _. tt)
            (λ _. tt))
          λ r. Avoids-bind (of_pitr_kind s) rest _ a (λ _. tt)

    delete_tasks-Avoids :
        (dns : List DataNode) (sns : List StorageNode)
        → Avoids (of_pitr_kind s) (delete_tasks rt flags dns sns)
    unfolding delete_tasks
    delete_tasks-Avoids dns [] = tt
    delete_tasks-Avoids dns (sn ∷ sns) =
        add_deletion-Avoids sn (find_data_node sn.ip dns) _ (delete_tasks-Avoids dns sns)

    pub exec_delete-Avoids : (b : LsBackup) → Avoids (of_pitr_kind s) (exec_delete rt flags b)
    unfolding exec_delete
    exec_delete-Avoids b =
        let t = of_pitr_kind s in
        Avoids-if t (is_empty b.ss_backup.storage_nodes) (pure tt) _ tt (
          Avoids-bind t _ _ (delete_tasks-Avoids b.dn_list _)
            λ rs. Avoids-if t (all_deleted rs) (pure tt) (fail _) tt tt)
