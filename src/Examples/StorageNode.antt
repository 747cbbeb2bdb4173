-- ===== src/Examples/StorageNode.antt =====
-- The storage node controller at concrete inputs.
use shardingsphere_on_cloud.Prelude.{◌≡◌, ◌≢◌, ◌↔◌, ◌⊎◌, refl, some, [], ◌==◌, if◌then◌else◌, All}
use shardingsphere_on_cloud.Api.StorageNode.{
  ready, deleting, delete_complete, available_type, cluster_ready_type, registered_type,
}
use shardingsphere_on_cloud.Api.StorageNode.Conditions.{find_condition, HasDistinctTypes}
use shardingsphere_on_cloud.Effects.Run.{run}
use shardingsphere_on_cloud.Effects.Avoids.{Fails, Precedes}
use shardingsphere_on_cloud.Controllers.StorageNode.Unit.{get_ds_name}
use shardingsphere_on_cloud.Controllers.StorageNode.Finalize.{finalize}
use shardingsphere_on_cloud.Controllers.StorageNode.Status.{compute_desired_state}
use shardingsphere_on_cloud.Controllers.StorageNode.Status.Readiness.{
  IsServing, ready_iff, delete_complete_iff,
}
use shardingsphere_on_cloud.Controllers.StorageNode.Status.Conditions.{
  cluster_condition, available_condition, registered_condition, HasDistinctTypes-desired,
  find_condition-desired,
}
use shardingsphere_on_cloud.Controllers.StorageNode.Ordering.{
  unregisters, deletes_database, unregister_before_delete,
}
use shardingsphere_on_cloud.Controllers.StorageNode.Finalizer.{
  writes_object, finalizer_kept, pg_unit_stays_registered,
}
use shardingsphere_on_cloud.Controllers.StorageNode.Connection.{is_statement}
use shardingsphere_on_cloud.Examples.Data.{
  sdk, now, serving_status, leaving_status, node, provider, pg_provider, env,
}

unregister_before_delete_example :
    Precedes
      (unregisters (get_ds_name node))
      deletes_database
      (run env (finalize sdk now node provider)).1
unregister_before_delete_example = unregister_before_delete sdk now env node provider refl

finalizer_kept_example : All (Fails writes_object) (run env (finalize sdk now node provider)).1
finalizer_kept_example = finalizer_kept sdk now env node provider (λ p. cc) (λ p. cc)

pg_unit_stays_registered_example :
    All (Fails is_statement) (run env (finalize sdk now node pg_provider)).1
pg_unit_stays_registered_example = pg_unit_stays_registered sdk now env node pg_provider refl

ready_iff_example :
    ((compute_desired_state sdk now serving_status).phase ≡ ready)
    ↔ ((serving_status.phase ≢ deleting) × IsServing sdk serving_status)
ready_iff_example = ready_iff sdk now serving_status

delete_complete_iff_example :
    (((compute_desired_state sdk now leaving_status).phase ≡ delete_complete) ↔ (
      (leaving_status.phase ≡ deleting)
      × (leaving_status.cluster.status ≡ "")
      × (leaving_status.instances ≡ [])))
    × (((compute_desired_state sdk now leaving_status).phase ≡ deleting) ↔ (
        (leaving_status.phase ≡ deleting)
        × ((leaving_status.cluster.status ≢ "") ⊎ (leaving_status.instances ≢ []))))
delete_complete_iff_example = delete_complete_iff sdk now leaving_status

HasDistinctTypes-desired_example :
    HasDistinctTypes (compute_desired_state sdk now leaving_status).conditions
HasDistinctTypes-desired_example =
    HasDistinctTypes-desired sdk now leaving_status (((refl, tt), (tt, tt)))

find_condition-desired_example :
    find_condition "Available" (compute_desired_state sdk now leaving_status).conditions ≡ (
      if registered_type == "Available"
      then some (registered_condition now leaving_status.registered)
      else if available_type == "Available"
      then some (available_condition now (compute_desired_state sdk now leaving_status).phase)
      else if cluster_ready_type == "Available"
      then cluster_condition sdk now leaving_status.cluster.status
      else find_condition "Available" leaving_status.conditions)
find_condition-desired_example = find_condition-desired sdk now leaving_status "Available"
