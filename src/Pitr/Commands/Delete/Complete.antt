-- ===== src/Pitr/Commands/Delete/Complete.antt =====
-- A record is hidden before its backups are deleted, and removed after all of them are.
use mathlib.Core.List.{Memᴰ}
use shardingsphere_on_cloud.Prelude.{
  String, ◌<>◌, ◌≡◌, ◌⊎◌, refl, subst, inl, inr, Bool, true, false, none, some, List, [], ◌∷◌, ◌==◌,
  ◌&&◌, eq_refl, is_empty, All, All-of-Mem, Bool-cases, Option-cases, arith,
}
use shardingsphere_on_cloud.Go.{Result, ok, err}
use shardingsphere_on_cloud.Effects.{Request, Response, attempt, pure, fail, call, pitr}
use shardingsphere_on_cloud.Effects.Run.{Env, run, Always, Always-run}
use shardingsphere_on_cloud.Effects.Avoids.{Avoids-on_error, occurs, Precedes}
use shardingsphere_on_cloud.Effects.Performs.{Precedes-sequence, Performs-first}
use shardingsphere_on_cloud.Effects.Guards.{Guards, Guards-attempt, Guards-first, Guards-run}
use shardingsphere_on_cloud.Effects.Succeeds.{
  Succeeds, Answered, Succeeds-then, Succeeds-first, Succeeds-bind, Succeeds-if,
}
use shardingsphere_on_cloud.Pitr.Kinds.{PitrKind, of_pitr_kind, deletes, is_removes, removes_file}
use shardingsphere_on_cloud.Pitr.Model.{StorageNode, DataNode, LsBackup, DeleteBackupResult}
use shardingsphere_on_cloud.Pitr.Requests.{send, delete_backup_in, rename_file}
use shardingsphere_on_cloud.Pitr.Runtime.{Runtime, Flags}
use shardingsphere_on_cloud.Pitr.Agent as Agent
use shardingsphere_on_cloud.Pitr.Agent.{is_zero, post}
use shardingsphere_on_cloud.Pitr.Storage.{hidden, hide_by_name}
use shardingsphere_on_cloud.Pitr.Commands.Common.{agent_address, find_data_node}
use shardingsphere_on_cloud.Pitr.Commands.Backup.{delete_backup_of}
use shardingsphere_on_cloud.Pitr.Commands.Delete.{
  all_deleted, delete_progress, add_deletion, delete_tasks, exec_delete, delete_approved,
}
use shardingsphere_on_cloud.Pitr.Footprint.Agents.{exec_delete-Avoids}

abbrev is_deletes_backup : PitrKind → Bool
is_deletes_backup deletes = true
is_deletes_backup _ = false

-- The request renames the file of the record, in the directory of records, to its hidden name.
abbrev pub hides_record : (dir : String) → LsBackup → Request → Bool
hides_record dir b (pitr (rename_file d from to)) =
    (d == dir) && ((from == b.info.file_name) && (to == hidden b.info.file_name))
hides_record dir b _ = false

-- The request asks an agent server to delete a backup.
abbrev pub deletes_backup : Request → Bool
deletes_backup = of_pitr_kind is_deletes_backup

module _ (rt : Runtime) (flags : Flags) where
  -- The request asks the agent server of the node to delete the backup, and the answer has code 0.
  abbrev pub Deletes : StorageNode × DataNode → (q : Request) → Result (Response q) → Type 0
  Deletes (sn, dn) (pitr (send method url (delete_backup_in i))) (ok reply) =
      (method ≡ "DELETE")
      × (url ≡ agent_address flags sn <> "/api/backup")
      × (i ≡ delete_backup_of rt flags sn dn)
      × (is_zero reply.code ≡ true)
  Deletes t _ _ = ⊥

  delete_backup-Succeeds :
      (sn : StorageNode) (dn : DataNode)
      → Succeeds
          (Deletes (sn, dn))
          (λ _. ⊥)
          (Agent.delete_backup (agent_address flags sn) (delete_backup_of rt flags sn dn))
  unfolding Agent.delete_backup post attempt
  delete_backup-Succeeds sn dn (err e) = inr tt
  delete_backup-Succeeds sn dn (ok reply) = elim (Bool-cases (is_zero reply.code)) [
    | inl z ↦ inl (refl, refl, refl, z)
    | inr z ↦ inr (ground arith)
  ]

  abbrev NotDeleted : List DeleteBackupResult → Type 0
  NotDeleted rs = all_deleted rs ≡ false

  module _ (dns : List DataNode) (sn : StorageNode) (dn : DataNode)
      (found : find_data_node sn.ip dns ≡ some dn) where
    delete_progress-Succeeds :
        Succeeds
          (Deletes (sn, dn))
          (λ r. (r.status == "Completed") ≡ false)
          (delete_progress rt flags sn dn)
    unfolding delete_progress
    delete_progress-Succeeds =
        Succeeds-first (Deletes (sn, dn)) _ _ _ _ (delete_backup-Succeeds sn dn) (λ _. refl)

    delete_tasks-Succeeds :
        (sns : List StorageNode)
        → Memᴰ sn sns
        → Succeeds (Deletes (sn, dn)) NotDeleted (delete_tasks rt flags dns sns)
    unfolding delete_tasks
    delete_tasks-Succeeds [] m = elim m [ ]
    delete_tasks-Succeeds (x ∷ xs) (Memᴰ.head e) =
        let T = Deletes (sn, dn) in
        let rest = delete_tasks rt flags dns xs in
        subst (λ y. Succeeds T NotDeleted (add_deletion rt flags y (find_data_node y.ip dns) rest))
          e
          (rw found (
            Succeeds-bind T (λ r. (r.status == "Completed") ≡ false) NotDeleted
              (delete_progress rt flags sn dn) _ delete_progress-Succeeds
              λ r f. Succeeds-then T NotDeleted rest _ _ (λ _. tt) (λ rs. ground arith)))
    delete_tasks-Succeeds (x ∷ xs) (Memᴰ.tail m) =
        let T = Deletes (sn, dn) in
        let rest = delete_tasks-Succeeds xs m in
        elim (Option-cases (find_data_node x.ip dns)) [
          | inl e ↦ rw e rest
          | inr (d, e) ↦ rw e (
              Succeeds-then T NotDeleted (delete_progress rt flags x d) _ _ (λ _. tt)
                λ r.
                  Succeeds-bind T NotDeleted NotDeleted (delete_tasks rt flags dns xs) _ rest
                    (λ rs f. ground arith))
        ]

  exec_delete-Succeeds :
      (sn : StorageNode) (dn : DataNode) (b : LsBackup)
      → find_data_node sn.ip b.dn_list ≡ some dn
      → Memᴰ sn b.ss_backup.storage_nodes
      → Memᴰ sn (rt.finish b.ss_backup.storage_nodes)
      → Succeeds (Deletes (sn, dn)) (λ _. ⊥) (exec_delete rt flags b)
  unfolding exec_delete
  exec_delete-Succeeds sn dn b found present m =
      let T = Deletes (sn, dn) in
      Succeeds-if T (λ _. ⊥) (is_empty b.ss_backup.storage_nodes) (pure tt) _
        (not_empty b.ss_backup.storage_nodes present)
        λ _.
          Succeeds-bind T NotDeleted (λ _. ⊥) _ _ (delete_tasks-Succeeds b.dn_list sn dn found _ m)
            λ rs f. Succeeds-if T (λ _. ⊥) (all_deleted rs) (pure tt) (fail _) (λ c. cc) (λ _. tt)
    where
      not_empty : (sns : List StorageNode) → Memᴰ sn sns → is_empty sns ≡ true → ⊥
      not_empty [] k e = elim k [ ]
      not_empty (x ∷ xs) k e = cc

  delete_approved-Guards :
      (sn : StorageNode) (dn : DataNode) (dir : String) (b : LsBackup)
      → Succeeds (Deletes (sn, dn)) (λ _. ⊥) (exec_delete rt flags b)
      → Guards (Deletes (sn, dn)) removes_file (delete_approved rt flags dir b)
  unfolding delete_approved hide_by_name
  delete_approved-Guards sn dn dir b s =
      let T = Deletes (sn, dn) in
      Guards-attempt T removes_file _ _ _
        (Avoids-on_error removes_file _
          (call (pitr (rename_file dir b.info.file_name (hidden b.info.file_name))))
          (refl, λ _. tt))
        (λ _. tt)
        λ _.
          Guards-first T removes_file _ _ _ (Succeeds-first T (λ _. ⊥) _ _ _ s (λ _. tt))
            (Avoids-on_error removes_file _ _ (exec_delete-Avoids rt flags is_removes refl b))
            (λ _. tt)

  delete_approved-Precedes :
      (dir : String) (b : LsBackup)
      → Always
          (λ _ g. Precedes (hides_record dir b) deletes_backup g)
          []
          (delete_approved rt flags dir b)
  unfolding delete_approved hide_by_name
  delete_approved-Precedes dir b =
      Precedes-sequence (hides_record dir b) deletes_backup [] _ _ _
        (Performs-first (hides_record dir b) _ _ _
          (inl
            (rw (eq_refl dir) (rw (eq_refl b.info.file_name) (eq_refl (hidden b.info.file_name)))))
          (λ _. tt))
        (Avoids-on_error deletes_backup _
          (call (pitr (rename_file dir b.info.file_name (hidden b.info.file_name))))
          (refl, λ _. tt))
        (λ _. tt) tt

  -- If the goroutine of every storage node reports, then in every run of `delete_approved`, whatever
  -- the answers, the file of the record is asked to be renamed to its hidden name before any agent
  -- server is asked to delete a backup; and a file is removed only where each storage node of the
  -- record that has a data node has an agent server that answered with code 0 the request to delete
  -- the backup of it.
  pub delete_approved-Answered :
      (env : Env) (dir : String) (b : LsBackup)
      → ((sn : StorageNode)
          → Memᴰ sn b.ss_backup.storage_nodes
          → Memᴰ sn (rt.finish b.ss_backup.storage_nodes))
      → Precedes (hides_record dir b) deletes_backup (run env (delete_approved rt flags dir b)).1
        × ((occurs removes_file (run env (delete_approved rt flags dir b)).1 ≡ false)
            ⊎ All
                (λ sn.
                  (find_data_node sn.ip b.dn_list ≡ none)
                  ⊎ ((dn : DataNode) × (find_data_node sn.ip b.dn_list ≡ some dn)
                      × Answered env
                          (Deletes (sn, dn))
                          (run env (delete_approved rt flags dir b)).1))
                b.ss_backup.storage_nodes)
  delete_approved-Answered env dir b ends = (
    Always-run (λ _ g. Precedes (hides_record dir b) deletes_backup g) env _
        (delete_approved-Precedes dir b),
    elim (Bool-cases (occurs removes_file (run env (delete_approved rt flags dir b)).1)) [
      | inr n ↦ inl n
      | inl o ↦ inr (
          All-of-Mem _ b.ss_backup.storage_nodes λ sn m.
            elim (Option-cases (find_data_node sn.ip b.dn_list)) [
              | inl lost ↦ inl lost
              | inr (dn, found) ↦ inr (
                dn,
                found,
                Guards-run (Deletes (sn, dn)) removes_file env _
                    (delete_approved-Guards sn dn dir b
                      (exec_delete-Succeeds sn dn b found m (ends sn m)))
                    o,
              )
            ])
    ],
  )
