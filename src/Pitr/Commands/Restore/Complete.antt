-- ===== src/Pitr/Commands/Restore/Complete.antt =====
-- A restore that succeeds has restored every storage node of the record.
use mathlib.Core.List.{Memᴰ}
use package.text.Mathlib.Text.{starts_with}
use package.text.Mathlib.TextPositions.{starts_with-append}
use shardingsphere_on_cloud.Prelude.{
  String, ◌<>◌, ◌≡◌, refl, sym, ap, ◌∙◌, subst, inl, inr, true, false, none, some, List, [], ◌∷◌,
  ◌==◌, not, is_empty, All, All-of-Mem, eq_iff, Bool-cases, Option-cases, arith,
}
use shardingsphere_on_cloud.Go.{Result, ok, err, text}
use shardingsphere_on_cloud.Effects.{Request, Response, attempt, pure, fail, pitr}
use shardingsphere_on_cloud.Effects.Never.{Never, Never-first, Never-if}
use shardingsphere_on_cloud.Effects.Run.{Env, run}
use shardingsphere_on_cloud.Effects.Succeeds.{
  Succeeds, Answered, Succeeds-then, Succeeds-first, Succeeds-bind, Succeeds-if,
}
use shardingsphere_on_cloud.Effects.Avoids.{Avoids-on_error, occurs}
use shardingsphere_on_cloud.Effects.Guards.{
  Guards, Guards-attempt, Guards-first, Guards-if, Guards-run, Succeeds-Never, Answered-none,
}
use shardingsphere_on_cloud.Pitr.Kinds.{is_executes, executes_statement}
use shardingsphere_on_cloud.Pitr.Footprint.{check_agent_server_status-Avoids}
use shardingsphere_on_cloud.Pitr.Footprint.Agents.{exec_restore-Avoids}
use shardingsphere_on_cloud.Pitr.Model.{StorageNode, DataNode, LsBackup}
use shardingsphere_on_cloud.Pitr.Requests.{send, restore_in}
use shardingsphere_on_cloud.Pitr.Runtime.{Runtime, Flags}
use shardingsphere_on_cloud.Pitr.Agent as Agent
use shardingsphere_on_cloud.Pitr.Agent.{is_zero, post}
use shardingsphere_on_cloud.Pitr.Commands.Common.{agent_address, find_data_node}
use shardingsphere_on_cloud.Pitr.Commands.Restore.{
  restore_in_of, restore_progress, restore_nodes, exec_restore, restore_approved, with_data_nodes,
  add_task, all_completed,
}

module _ (rt : Runtime) (flags : Flags) where
  -- The request asks the agent server of the node to restore the backup, and the answer has code 0.
  abbrev pub Restores : StorageNode × DataNode → (q : Request) → Result (Response q) → Type 0
  Restores (sn, dn) (pitr (send method url (restore_in i))) (ok reply) =
      (url ≡ agent_address flags sn <> "/api/restore")
      × (i ≡ restore_in_of rt flags sn dn)
      × (is_zero reply.code ≡ true)
  Restores t _ _ = ⊥

  restore-Succeeds :
      (sn : StorageNode) (dn : DataNode)
      → Succeeds
          (Restores (sn, dn))
          (λ _. ⊥)
          (Agent.restore (agent_address flags sn) (restore_in_of rt flags sn dn))
  unfolding Agent.restore post attempt
  restore-Succeeds sn dn (err e) = inr tt
  restore-Succeeds sn dn (ok reply) = elim (Bool-cases (is_zero reply.code)) [
    | inl z ↦ inl (refl, refl, z)
    | inr z ↦ inr (ground arith)
  ]

  -- A text that begins with "Failed: " is no "Completed".
  failed_text : (s : String) → (("Failed: " <> s) == "Completed") ≡ false
  failed_text s = elim (Bool-cases (("Failed: " <> s) == "Completed")) [
    | inl e ↦
        let same = (eq_iff ("Failed: " <> s) "Completed").0 e in
        let p =
          subst (λ v. starts_with v "Failed: " ≡ true) same (starts_with-append "Failed: " s) in
        cc
    | inr e ↦ e
  ]

  restore_progress-Succeeds :
      (t : StorageNode × DataNode)
      → Succeeds (Restores t) (λ r. (r.status == "Completed") ≡ false) (restore_progress rt flags t)
  unfolding restore_progress
  restore_progress-Succeeds (sn, dn) =
      Succeeds-first (Restores (sn, dn)) _ _ _ _ (restore-Succeeds sn dn)
        (λ e. failed_text (rt.error_text e))

  restore_nodes-Succeeds :
      (t : StorageNode × DataNode) (ts : List (StorageNode × DataNode))
      → Memᴰ t ts
      → Succeeds (Restores t) (λ rs. all_completed rs ≡ false) (restore_nodes rt flags ts)
  unfolding restore_nodes
  restore_nodes-Succeeds t [] m = elim m [ ]
  restore_nodes-Succeeds t (x ∷ xs) (Memᴰ.head e) =
      Succeeds-bind (Restores t) (λ r. (r.status == "Completed") ≡ false) _ _ _
        (subst
          (λ y.
            Succeeds (Restores t) (λ r. (r.status == "Completed") ≡ false)
              (restore_progress rt flags y))
          e (restore_progress-Succeeds t))
        λ r f. Succeeds-then (Restores t) _ _ _ _ (λ _. tt) (λ rs. ground arith)
  restore_nodes-Succeeds t (x ∷ xs) (Memᴰ.tail m) =
      Succeeds-then (Restores t) _ _ _ _ (λ _. tt)
        λ r.
          Succeeds-bind (Restores t) (λ rs. all_completed rs ≡ false) _ _ _
            (restore_nodes-Succeeds t xs m) (λ rs f. ground arith)

  module _ (dns : List DataNode) (sn : StorageNode) (dn : DataNode)
      (found : find_data_node sn.ip dns ≡ some dn) where
    with_data_nodes-Succeeds :
        (sns : List StorageNode)
        → Memᴰ sn sns
        → Succeeds (Restores (sn, dn)) (λ ts. Memᴰ (sn, dn) ts) (with_data_nodes dns sns)
    unfolding with_data_nodes
    with_data_nodes-Succeeds [] m = elim m [ ]
    with_data_nodes-Succeeds (x ∷ xs) (Memᴰ.head e) =
        subst
          (λ y.
            Succeeds (Restores (sn, dn)) (λ ts. Memᴰ (sn, dn) ts)
              (add_task y (find_data_node y.ip dns) (with_data_nodes dns xs)))
          e
          (rw found (
            Succeeds-then (Restores (sn, dn)) (λ ts. Memᴰ (sn, dn) ts) (with_data_nodes dns xs) _ _
              (λ _. tt) (λ rest. Memᴰ.head refl)))
    with_data_nodes-Succeeds (x ∷ xs) (Memᴰ.tail m) =
        elim (Option-cases (find_data_node x.ip dns)) [
          | inl e ↦ rw e tt
          | inr (d, e) ↦ rw e (
              Succeeds-bind (Restores (sn, dn)) (λ ts. Memᴰ (sn, dn) ts) (λ ts. Memᴰ (sn, dn) ts)
                (with_data_nodes dns xs) _ (with_data_nodes-Succeeds xs m) (λ rest k. Memᴰ.tail k))
        ]

    exec_restore-Succeeds :
        (b : LsBackup)
        → b.dn_list ≡ dns
        → Memᴰ sn (rt.finish b.ss_backup.storage_nodes)
        → Succeeds (Restores (sn, dn)) (λ _. ⊥) (exec_restore rt flags b)
    unfolding exec_restore
    exec_restore-Succeeds b e m =
        let T = Restores (sn, dn) in
        Succeeds-if T (λ _. ⊥) (is_empty b.ss_backup.storage_nodes) (fail _) _ (λ _. tt)
          λ _.
            Succeeds-bind T (λ ts. Memᴰ (sn, dn) ts) (λ _. ⊥) _ _
              (subst
                (λ l.
                  Succeeds T (λ ts. Memᴰ (sn, dn) ts)
                    (with_data_nodes l (rt.finish b.ss_backup.storage_nodes)))
                (sym e) (with_data_nodes-Succeeds _ m))
              λ ts k.
                Succeeds-bind T (λ rs. all_completed rs ≡ false) (λ _. ⊥) _ _
                  (restore_nodes-Succeeds (sn, dn) ts k)
                  λ rs f.
                    Succeeds-if T (λ _. ⊥) (all_completed rs) (pure tt) (fail _) (λ c. cc) (λ _. tt)

  -- Without a data node of a storage node, its restore panics.
  with_data_nodes-Never :
      (dns : List DataNode) (sn : StorageNode)
      → find_data_node sn.ip dns ≡ none
      → (sns : List StorageNode) → Memᴰ sn sns
      → Never (with_data_nodes dns sns)
  unfolding with_data_nodes
  with_data_nodes-Never dns sn lost [] m = elim m [ ]
  with_data_nodes-Never dns sn lost (x ∷ xs) (Memᴰ.head e) =
      rw (ap (λ (y : StorageNode). find_data_node y.ip dns) (sym e) ∙ lost) tt
  with_data_nodes-Never dns sn lost (x ∷ xs) (Memᴰ.tail m) =
      elim (Option-cases (find_data_node x.ip dns)) [
        | inl e ↦ rw e tt
        | inr (d, e) ↦
            rw e (Never-first (with_data_nodes dns xs) _ (with_data_nodes-Never dns sn lost xs m))
      ]

  exec_restore-Never :
      (sn : StorageNode) (b : LsBackup)
      → find_data_node sn.ip b.dn_list ≡ none
      → Memᴰ sn (rt.finish b.ss_backup.storage_nodes)
      → Never (exec_restore rt flags b)
  unfolding exec_restore
  exec_restore-Never sn b lost m =
      Never-if (is_empty b.ss_backup.storage_nodes) (fail _) _ tt
        (Never-first _ _ (with_data_nodes-Never b.dn_list sn lost _ m))

  restore_approved-Guards :
      (T : (q : Request) → Result (Response q) → Type 0) (names : List String) (b : LsBackup)
      → Succeeds T (λ _. ⊥) (exec_restore rt flags b)
      → Guards T executes_statement (restore_approved rt flags names b)
  unfolding restore_approved
  restore_approved-Guards T names b s =
      let t = executes_statement in
      Guards-attempt T t _ _ _ (check_agent_server_status-Avoids is_executes flags b refl) (λ _. tt)
        λ available. Guards-if T t (not available) (fail _) _ tt (
          Guards-first T t _ _ _ (Succeeds-first T (λ _. ⊥) _ _ _ s (λ _. tt))
            (Avoids-on_error t _ _ (exec_restore-Avoids rt flags is_executes refl b)) (λ _. tt))

  -- If the goroutine of every storage node reports, then a run of `restore_approved` that executes a
  -- statement, be it to drop a database or to import the metadata, has found a data node for each
  -- storage node of the record, and the agent server of each has answered with code 0 the request to
  -- restore the backup of that data node.
  pub restore_approved-Answered :
      (env : Env) (names : List String) (b : LsBackup)
      → ((sn : StorageNode)
          → Memᴰ sn b.ss_backup.storage_nodes
          → Memᴰ sn (rt.finish b.ss_backup.storage_nodes))
      → occurs executes_statement (run env (restore_approved rt flags names b)).1 ≡ true
      → All
          (λ sn.
            (dn : DataNode) × (find_data_node sn.ip b.dn_list ≡ some dn)
            × Answered env (Restores (sn, dn)) (run env (restore_approved rt flags names b)).1)
          b.ss_backup.storage_nodes
  restore_approved-Answered env names b ends o = All-of-Mem _ b.ss_backup.storage_nodes λ sn m.
      elim (Option-cases (find_data_node sn.ip b.dn_list)) [
        | inl lost ↦
            let T = λ (q : Request) (r : Result (Response q)). ⊥ in
            absurd (
              Answered-none env _ (
                Guards-run T executes_statement env _
                  (restore_approved-Guards T names b
                    (Succeeds-Never T _ (exec_restore-Never sn b lost (ends sn m))))
                  o))
        | inr (dn, found) ↦ (
          dn,
          found,
          Guards-run (Restores (sn, dn)) executes_statement env _
              (restore_approved-Guards (Restores (sn, dn)) names b
                (exec_restore-Succeeds b.dn_list sn dn found b refl (ends sn m)))
              o,
        )
      ]
