-- ===== src/Pitr/Commands/Declined.antt =====
-- The prompts of `restore` and `delete`: a user who does not approve.
use shardingsphere_on_cloud.Prelude.{String, ◌≡◌, refl, Bool, true, false, not, [], All}
use shardingsphere_on_cloud.Go.{ok, cite, err}
use shardingsphere_on_cloud.Effects.{Request, Prog, attempt, done, fail, pitr}
use shardingsphere_on_cloud.Effects.Run.{Env, History, run}
use shardingsphere_on_cloud.Effects.Avoids.{Fails, Avoids-bind, Avoids-on_error}
use shardingsphere_on_cloud.Effects.Along.{Along, Along-after, Along-if, Along-run}
use shardingsphere_on_cloud.Pitr.Kinds.{
  PitrKind, of_pitr_kind, executes, backs_up, restores, deletes, hides, removes,
}
use shardingsphere_on_cloud.Pitr.Requests.{read_line}
use shardingsphere_on_cloud.Pitr.Runtime.{Runtime, Flags}
use shardingsphere_on_cloud.Pitr.Commands.Common.{is_approval, get_user_approve_in_terminal}
use shardingsphere_on_cloud.Pitr.Commands.Restore.{restore, check_database_exist, restore_approved}
use shardingsphere_on_cloud.Pitr.Commands.Delete.{delete_record, delete_approved}
use shardingsphere_on_cloud.Pitr.Footprint.{
  new_proxy-Avoids, new_local_storage-Avoids, validate-Avoids, first_backup-Avoids,
  export_metadata-Avoids, check_agent_server_status-Avoids,
}

-- The kinds of request that change the database nodes, the proxy or a record.
abbrev pub is_change : PitrKind → Bool
is_change executes = true
is_change backs_up = true
is_change restores = true
is_change deletes = true
is_change hides = true
is_change removes = true
is_change _ = false

abbrev pub changes : Request → Bool
changes = of_pitr_kind is_change

module _ (env : Env) (line : String) (reads : (h : History) → env h (pitr read_line) ≡ ok line)
    (declines : is_approval line ≡ false) where
  approved_only :
      {A : Type 0} (h : History) (k : Prog A)
      → Along env changes
          (λ _. Unit)
          h
          (attempt
            (attempt get_user_approve_in_terminal (λ e. done (err (cite "" e))) (λ a. done (ok a)))
            (λ e. done (err e))
            (λ _. k))
  unfolding get_user_approve_in_terminal attempt
  approved_only h k = rw (reads h) (refl, rw declines tt)

  restore-Along :
      (rt : Runtime) (flags : Flags) → Along env changes (λ _. Unit) [] (restore rt flags)
  unfolding restore check_database_exist
  restore-Along rt flags =
      let t = of_pitr_kind is_change in
      Along-after env changes _ [] _ _
        (Avoids-on_error t _ _ (new_local_storage-Avoids rt is_change refl refl _))
        λ dir _.
          Along-after env changes _ _ _ _
            (Avoids-on_error t _ _ (new_proxy-Avoids is_change refl _ _ _ _ _))
            λ _ _.
              Along-after env changes _ _ _ _ (validate-Avoids rt is_change refl flags dir)
                λ baks _.
                  Along-after env changes _ _ _ _ (first_backup-Avoids rt is_change refl baks)
                    λ bak _.
                      Along-after env changes _ _ _ _
                        (Avoids-on_error t _ _ (
                          Avoids-bind t _ _
                            (Avoids-on_error t _ _ (export_metadata-Avoids rt is_change refl))
                            (λ _. tt)))
                        λ names h. approved_only h (restore_approved rt flags names bak)

  delete_record-Along :
      (rt : Runtime) (flags : Flags) → Along env changes (λ _. Unit) [] (delete_record rt flags)
  unfolding delete_record
  delete_record-Along rt flags =
      let t = of_pitr_kind is_change in
      Along-after env changes _ [] _ _
        (Avoids-on_error t _ _ (new_local_storage-Avoids rt is_change refl refl _))
        λ dir _.
          Along-after env changes _ _ _ _ (validate-Avoids rt is_change refl flags dir) λ baks _.
            Along-after env changes _ _ _ _ (first_backup-Avoids rt is_change refl baks) λ bak _.
              Along-after env changes _ _ _ _
                (check_agent_server_status-Avoids is_change flags bak refl)
                λ available h.
                  Along-if env changes (not available) (fail _) _ h tt
                    (approved_only h (delete_approved rt flags dir bak))

  -- If every answer to a prompt is a line that does not approve, then no run of `restore` or of
  -- `delete_record` executes a statement, asks an agent server to restore or to delete, or hides or
  -- removes a record.
  pub declined_changes_nothing :
      (rt : Runtime) (flags : Flags)
      → All (Fails changes) (run env (restore rt flags)).1
        × All (Fails changes) (run env (delete_record rt flags)).1
  declined_changes_nothing rt flags = (
    Along-run env changes _ _ (restore-Along rt flags),
    Along-run env changes _ _ (delete_record-Along rt flags),
  )
