-- ===== src/Pitr/Footprint/Nodes.antt =====
-- The kinds of request that the steps of a backup and its clean-up avoid.
use shardingsphere_on_cloud.Prelude.{
  ℕ, zero, suc, String, ◌≡◌, Bool, true, false, none, some, List, [], ◌∷◌, is_empty,
}
use shardingsphere_on_cloud.Effects.{panic, pure, call, pitr, ◌>>=◌}
use shardingsphere_on_cloud.Effects.Avoids.{
  Avoids, Avoids-attempt, Avoids-bind, Avoids-on_error, Avoids-if,
}
use shardingsphere_on_cloud.Pitr.Kinds.{PitrKind, of_pitr_kind, deletes, reports, removes, gives}
use shardingsphere_on_cloud.Pitr.Model.{StorageNode, DataNode, LsBackup, BackupStatus, canceled}
use shardingsphere_on_cloud.Pitr.Requests.{remove_file}
use shardingsphere_on_cloud.Pitr.Runtime.{Runtime, Flags}
use shardingsphere_on_cloud.Pitr.Agent as Agent
use shardingsphere_on_cloud.Pitr.Agent.{post}
use shardingsphere_on_cloud.Pitr.Storage.{delete_file, delete_by_name}
use shardingsphere_on_cloud.Pitr.Commands.Common.{now_text, find_data_node}
use shardingsphere_on_cloud.Pitr.Commands.Nodes.{
  Blocked, check_progress, polled, poll, poll_node, poll_nodes, check_backup_status, ongoing, ended,
  broken, default_show_detail_retry_times,
}
use shardingsphere_on_cloud.Pitr.Commands.Backup.{do_delete, delete_nodes, delete_backup_files}
use shardingsphere_on_cloud.Pitr.Footprint.{now_text-Avoids, post-Avoids}

module _ (rt : Runtime) (flags : Flags) (s : PitrKind → Bool) (none_given : s gives ≡ false) where
  module _ (no_reports : s reports ≡ false) where
    polled-Avoids :
        (retries : ℕ) (dn : DataNode) (status : BackupStatus)
        → Avoids (of_pitr_kind s) (polled retries dn status)
    unfolding polled
    polled-Avoids retries dn status =
        Avoids-bind (of_pitr_kind s) now_text _ (now_text-Avoids s none_given) (λ _. tt)

    check_progress-Avoids :
        (retries : ℕ) (sn : StorageNode) (dn : DataNode)
        → Avoids (of_pitr_kind s) (check_progress rt flags retries sn dn)
    unfolding check_progress Agent.show_detail
    check_progress-Avoids zero sn dn =
        Avoids-attempt (of_pitr_kind s) _ _ _ (post-Avoids s _ _ _ no_reports) (λ _. tt)
          (λ i. polled-Avoids zero dn i.status)
    check_progress-Avoids (suc retries) sn dn =
        Avoids-attempt (of_pitr_kind s) _ _ _ (post-Avoids s _ _ _ no_reports)
          (λ _. check_progress-Avoids retries sn dn) (λ i. polled-Avoids (suc retries) dn i.status)

    poll-Avoids :
        (ticks retries : ℕ) (sn : StorageNode) (dn : DataNode)
        → Avoids (of_pitr_kind s) (poll rt flags ticks retries sn dn)
    unfolding poll
    poll-Avoids zero retries sn dn = tt
    poll-Avoids (suc ticks) retries sn dn =
        Avoids-bind (of_pitr_kind s) _ _ (check_progress-Avoids retries sn dn) λ r.
          elim r.2
            as (λ p. Avoids {A = Blocked} (of_pitr_kind s) (elim p [
              | ongoing ↦ poll rt flags ticks r.1 sn r.0
              | ended ↦ pure (record { sent = r.0; errored = false })
              | broken ↦ pure (record { sent = r.0; errored = true })
            ])) [ ongoing ↦ poll-Avoids ticks r.1 sn r.0 | ended ↦ tt | broken ↦ tt ]

    poll_nodes-Avoids :
        (ticks : ℕ) (dns : List DataNode) (sns : List StorageNode)
        → Avoids (of_pitr_kind s) (poll_nodes rt flags ticks dns sns)
    unfolding poll_nodes poll_node
    poll_nodes-Avoids ticks dns [] = tt
    poll_nodes-Avoids ticks dns (sn ∷ sns) =
        Avoids-bind (of_pitr_kind s) _ _
          (elim (find_data_node sn.ip dns)
            as (λ o. Avoids {A = DataNode} (of_pitr_kind s) (elim o [
              | none ↦ panic "invalid memory address or nil pointer dereference"
              | some dn ↦
                  poll rt flags ticks default_show_detail_retry_times sn dn >>= λ g. pure g.sent
            ])) [
              | none ↦ tt
              | some dn ↦
                  Avoids-bind (of_pitr_kind s) _ _
                    (poll-Avoids ticks default_show_detail_retry_times sn dn) (λ _. tt)
            ])
          λ d. Avoids-bind (of_pitr_kind s) _ _ (poll_nodes-Avoids ticks dns sns) (λ _. tt)

    pub check_backup_status-Avoids :
        (ticks : ℕ) (b : LsBackup) → Avoids (of_pitr_kind s) (check_backup_status rt flags ticks b)
    unfolding check_backup_status
    check_backup_status-Avoids ticks b = Avoids-if (of_pitr_kind s) _ (pure (b, canceled)) _ tt (
        Avoids-bind (of_pitr_kind s) _ _ (poll_nodes-Avoids ticks b.dn_list _) λ results.
          Avoids-bind (of_pitr_kind s) now_text _ (now_text-Avoids s none_given) (λ _. tt))

module _ (rt : Runtime) (flags : Flags) (s : PitrKind → Bool) (no_deletes : s deletes ≡ false) where
  delete_nodes-Avoids :
      (dns : List DataNode) (sns : List StorageNode)
      → Avoids (of_pitr_kind s) (delete_nodes rt flags dns sns)
  unfolding delete_nodes do_delete Agent.delete_backup
  delete_nodes-Avoids dns [] = tt
  delete_nodes-Avoids dns (sn ∷ sns) =
      Avoids-bind (of_pitr_kind s) _ _
        (elim (find_data_node sn.ip dns)
          as (λ o.
            Avoids {A = Unit {0}} (of_pitr_kind s)
              (elim o [ none ↦ pure tt | some dn ↦ do_delete rt flags sn dn ])) [
                | none ↦ tt
                | some dn ↦
                    Avoids-attempt (of_pitr_kind s) _ _ _ (post-Avoids s _ _ _ no_deletes) (λ _. tt)
                      (λ _. tt)
              ])
        λ _. delete_nodes-Avoids dns sns

  pub delete_backup_files-Avoids :
      (dir filename : String) (b : LsBackup)
      → s removes ≡ false
      → Avoids (of_pitr_kind s) (delete_backup_files rt flags dir filename b)
  unfolding delete_backup_files delete_by_name delete_file
  delete_backup_files-Avoids dir filename b h =
      let t = of_pitr_kind s in
      Avoids-if t (is_empty b.ss_backup.storage_nodes) (pure tt) _ tt (
        Avoids-bind t _ _ (delete_nodes-Avoids b.dn_list (rt.before_exit b.ss_backup.storage_nodes))
          λ _.
            Avoids-attempt t _ _ _
              (Avoids-on_error t _ (call (pitr (remove_file dir filename))) (h, λ _. tt)) (λ _. tt)
              (λ _. tt))
