-- ===== src/Pitr/Commands/Backup/Lock.antt =====
-- The lock of the cluster that `backup` takes.
use shardingsphere_on_cloud.Prelude.{
  ℕ, String, ◌≡◌, refl, subst, Bool, Option, none, some, List, [], ◌∷◌, ◌==◌, ◌&&◌, not, arith,
}
use shardingsphere_on_cloud.Go.{Error, Result, text, cite}
use shardingsphere_on_cloud.Effects.{Request, Prog, attempt, pure, fail, call, ◌>>◌, pitr}
use shardingsphere_on_cloud.Effects.Run.{Env, returned, run}
use shardingsphere_on_cloud.Effects.Avoids.{
  Fails, Avoids, Avoids-attempt, Avoids-bind, Avoids-if, Avoids-on_error, Avoids-weaken,
}
use shardingsphere_on_cloud.Effects.Releasing.{
  Calm, Calm-attempt, Calm-bind, IsReleased, Released, Frees-bind, Frees-run, Unlocks,
  Unlocks-attempt, Owing, Owing-Unlocks, Owing-attempt, Owing-bind, Owing-if, Owing-then,
}
use shardingsphere_on_cloud.Pitr.Kinds.{of_pitr_kind, is_executes}
use shardingsphere_on_cloud.Pitr.Requests.{db_exec}
use shardingsphere_on_cloud.Pitr.Model.{StorageNode, LsBackup, completed, canceled}
use shardingsphere_on_cloud.Pitr.Runtime.{Runtime, Flags}
use shardingsphere_on_cloud.Pitr.Proxy.{lock_for_backup_sql, unlock_sql, unlock}
use shardingsphere_on_cloud.Pitr.Commands.Common.{
  check_agents, check_agent_server_status, show_disk_spaces, check_disk_space, now_text,
}
use shardingsphere_on_cloud.Pitr.Commands.Nodes.{
  exec_backup_node, exec_backup_nodes, exec_backup, backed_up,
}
use shardingsphere_on_cloud.Pitr.Commands.Backup.{
  Ending, finished, stopped, lock_and_export, prepare_backup, start_backup, release_cluster,
  await_backup, clean_up, backup, delete_backup_files,
}
use shardingsphere_on_cloud.Pitr.Footprint.Nodes.{
  check_backup_status-Avoids, delete_backup_files-Avoids,
}
use shardingsphere_on_cloud.Pitr.Footprint.{
  new_proxy-Avoids, new_local_storage-Avoids, write_by_json-Avoids,
}

abbrev statement : Request → String
statement (Request.pitr (db_exec s)) = s
statement _ = ""

-- The statement locks the cluster for a backup.
abbrev pub is_lock : Request → Bool
is_lock q = of_pitr_kind is_executes q && (statement q == lock_for_backup_sql)

-- The statement unlocks the cluster.
abbrev pub is_unlock : Request → Bool
is_unlock q = of_pitr_kind is_executes q && (statement q == unlock_sql)

lock_executes : (q : Request) → Fails (of_pitr_kind is_executes) q → Fails is_lock q
lock_executes q f = ground arith

quiet : {A : Type 0} (m : Prog A) → Avoids (of_pitr_kind is_executes) m → Avoids is_lock m
quiet m a = Avoids-weaken (of_pitr_kind is_executes) is_lock m lock_executes a

unlock-Unlocks : Unlocks is_lock is_unlock unlock
unfolding unlock attempt
unlock-Unlocks = (refl, λ r. ground arith)

unlock-quiet : Avoids is_lock unlock
unfolding unlock
unlock-quiet = Avoids-on_error is_lock _ (call (pitr (db_exec unlock_sql))) (refl, λ _. tt)

check_agents-Calm : (flags : Flags) (sns : List StorageNode) → Calm (check_agents flags sns)
unfolding check_agents
check_agents-Calm flags [] = tt
check_agents-Calm flags (sn ∷ sns) =
    Calm-attempt _ _ _ (λ _. Calm-bind _ _ (check_agents-Calm flags sns) (λ _. tt))
      (λ _. check_agents-Calm flags sns)

show_disk_spaces-Calm : (flags : Flags) (sns : List StorageNode) → Calm (show_disk_spaces flags sns)
unfolding show_disk_spaces
show_disk_spaces-Calm flags [] = tt
show_disk_spaces-Calm flags (sn ∷ sns) =
    Calm-attempt _ _ _ (λ _. show_disk_spaces-Calm flags sns) (λ _. show_disk_spaces-Calm flags sns)

now_text-Calm : Calm now_text
now_text-Calm = Calm-attempt _ _ _ (λ _. tt) (λ _. tt)

module _ (rt : Runtime) (flags : Flags) where
  exec_backup_node-Calm : (sn : StorageNode) → Calm (exec_backup_node rt flags sn)
  unfolding exec_backup_node backed_up
  exec_backup_node-Calm sn =
      Calm-attempt _ _ _ (λ _. Calm-bind _ _ now_text-Calm (λ _. tt))
        (λ _. Calm-bind _ _ now_text-Calm (λ _. tt))

  exec_backup_nodes-Calm : (sns : List StorageNode) → Calm (exec_backup_nodes rt flags sns)
  unfolding exec_backup_nodes
  exec_backup_nodes-Calm [] = tt
  exec_backup_nodes-Calm (sn ∷ sns) =
      Calm-bind _ _ (exec_backup_node-Calm sn)
        λ r. Calm-bind _ _ (exec_backup_nodes-Calm sns) (λ _. tt)

  -- A backup that stopped owes the unlocking to the deferred function.
  abbrev Owes : Ending → Type 0
  Owes finished = ⊥
  Owes (stopped _ _) = Unit

  abbrev Owed : Prog Ending → Type 0
  Owed m = Owing is_lock is_unlock Owes m

  await_backup-quiet :
      (ticks : ℕ) (dir filename : String) (b : LsBackup)
      → Avoids is_lock (await_backup rt flags ticks dir filename b)
  unfolding await_backup
  await_backup-quiet ticks dir filename b = quiet _ (
      Avoids-bind (of_pitr_kind is_executes) _ _
        (check_backup_status-Avoids rt flags is_executes refl refl ticks b)
        λ r.
          Avoids-if (of_pitr_kind is_executes) (not (r.1 == completed) && not (r.1 == canceled))
            (pure (stopped (text "Backup failed") (some (filename, r.0)))) _ tt
            (Avoids-attempt (of_pitr_kind is_executes) _ _ _
              (write_by_json-Avoids rt is_executes refl dir filename r.0) (λ _. tt) (λ _. tt)))

  release_cluster-Owed :
      (ticks : ℕ) (dir filename : String) (b : LsBackup)
      → Owed (release_cluster rt flags ticks dir filename b)
  unfolding release_cluster
  release_cluster-Owed ticks dir filename b = Owing-Unlocks is_lock is_unlock Owes _ (
      Unlocks-attempt is_lock is_unlock _ _ _ unlock-Unlocks (λ _. tt)
        λ _.
          Avoids-attempt is_lock _ _ _
            (quiet _ (write_by_json-Avoids rt is_executes refl dir filename b)) (λ _. tt)
            (λ _. await_backup-quiet ticks dir filename b))

  start_backup-Owed :
      (ticks : ℕ) (dir filename : String) (b : LsBackup)
      → Owed (start_backup rt flags ticks dir filename b)
  unfolding start_backup exec_backup
  start_backup-Owed ticks dir filename b =
      Owing-bind is_lock is_unlock Owes _ _
        (Calm-bind _ _ (exec_backup_nodes-Calm (rt.finish b.ss_backup.storage_nodes)) (λ _. tt))
        λ r. started ticks dir filename r.0 r.1
    where
      started :
          (ticks : ℕ) (dir filename : String) (b : LsBackup) (o : Option Error)
          → Owed (elim o [
            | some e ↦ pure (stopped (cite "exec backup failed. err: " e) (some (filename, b)))
            | none ↦ release_cluster rt flags ticks dir filename b
          ])
      started ticks dir filename b none = release_cluster-Owed ticks dir filename b
      started ticks dir filename b (some e) = tt

  prepare_backup-Owed :
      (ticks : ℕ) (dir filename : String) (b : LsBackup)
      → Owed (prepare_backup rt flags ticks dir filename b)
  unfolding prepare_backup check_agent_server_status check_disk_space
  prepare_backup-Owed ticks dir filename b =
      Owing-bind is_lock is_unlock Owes _ _
        (Calm-bind _ _ (check_agents-Calm flags b.ss_backup.storage_nodes) (λ _. tt))
        λ available. Owing-if is_lock is_unlock Owes (not available) (pure (stopped _ _)) _ tt (
          Owing-bind is_lock is_unlock Owes _ _
            (show_disk_spaces-Calm flags b.ss_backup.storage_nodes)
            λ _.
              Owing-attempt is_lock is_unlock Owes _ _ _ (λ _. tt)
                (λ _. start_backup-Owed ticks dir filename b))

  lock_and_export-Owed : (ticks : ℕ) (dir : String) → Owed (lock_and_export rt flags ticks dir)
  unfolding lock_and_export
  lock_and_export-Owed ticks dir =
      Owing-attempt is_lock is_unlock Owes _ _ _ (λ _. tt)
        λ _.
          Owing-attempt is_lock is_unlock Owes _ _ _ (λ _. tt)
            (λ r. prepare_backup-Owed ticks dir r.0 r.1)

  left-quiet :
      (dir : String) (left : Option (String × LsBackup)) (e : Error)
      → Avoids is_lock (
          elim left [
            | none ↦ pure tt
            | some (filename, b) ↦ delete_backup_files rt flags dir filename b
          ]
          >> fail {A = Unit {0}} e)
  left-quiet dir none e = Avoids-bind is_lock (pure tt) _ tt (λ _. tt)
  left-quiet dir (some (filename, b)) e =
      Avoids-bind is_lock _ _
        (quiet _ (delete_backup_files-Avoids rt flags is_executes refl dir filename b refl))
        (λ _. tt)

  clean_up-Unlocks :
      (dir : String) (ending : Ending)
      → Owes ending
      → Unlocks is_lock is_unlock (clean_up rt flags dir ending)
  unfolding clean_up
  clean_up-Unlocks dir finished o = absurd o
  clean_up-Unlocks dir (stopped e left) o =
      Unlocks-attempt is_lock is_unlock _ _ _
        (Unlocks-attempt is_lock is_unlock _ _ _ unlock-Unlocks (λ _. tt) (λ _. tt)) (λ _. tt)
        (λ _. left-quiet dir left e)

  clean_up-quiet : (dir : String) (ending : Ending) → Avoids is_lock (clean_up rt flags dir ending)
  unfolding clean_up
  clean_up-quiet dir finished = tt
  clean_up-quiet dir (stopped e left) =
      Avoids-bind is_lock _ _ (Avoids-attempt is_lock unlock _ _ unlock-quiet (λ _. tt) (λ _. tt))
        (λ _. left-quiet dir left e)

  -- In every run of `backup` that returns, with an error or without, whatever the answers: after
  -- each statement that locks the cluster there is a later one that unlocks it.
  pub backup-IsReleased :
      (env : Env) (ticks : ℕ) (r : Result (Unit {0}))
      → (run env (backup rt flags ticks)).0 ≡ returned r
      → IsReleased is_lock is_unlock (run env (backup rt flags ticks)).1
  unfolding backup
  backup-IsReleased env ticks r e =
      subst (λ o. Released is_lock is_unlock o (run env (backup rt flags ticks)).1) e
        (Frees-run is_lock is_unlock env _ (
          Frees-bind is_lock is_unlock _ _
            (quiet _ (
              Avoids-on_error (of_pitr_kind is_executes) _ _
                (new_proxy-Avoids is_executes refl _ _ _ _ _)))
            λ _.
              Frees-bind is_lock is_unlock _ _
                (quiet _ (
                  Avoids-on_error (of_pitr_kind is_executes) _ _
                    (new_local_storage-Avoids rt is_executes refl refl _)))
                λ dir. λ h i.
                  Owing-then is_lock is_unlock Owes _ _ (lock_and_export-Owed ticks dir)
                    (clean_up-Unlocks dir) (clean_up-quiet dir) h))
