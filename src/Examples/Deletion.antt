-- ===== src/Examples/Deletion.antt =====
-- The end of a deletion, and the requests that create, at concrete inputs.
use shardingsphere_on_cloud.Prelude.{
  inr, String, ◌≡◌, refl, false, [], ◌∷◌, ◌==◌, if◌then◌else◌, All,
}
use shardingsphere_on_cloud.Api.StorageNode.{StorageNode, delete_complete}
use shardingsphere_on_cloud.Go.Map.{find}
use shardingsphere_on_cloud.Effects.{
  update_storage_node, update_storage_node_status, describe_instance,
}
use shardingsphere_on_cloud.Effects.Run.{run, run_from}
use shardingsphere_on_cloud.Effects.Avoids.{Fails, Precedes}
use shardingsphere_on_cloud.Controllers.StorageNode.Status.{compute_desired_state}
use shardingsphere_on_cloud.Controllers.StorageNode.Store.{write_status}
use shardingsphere_on_cloud.Controllers.StorageNode.Finalize.{finalize, finalizer_name}
use shardingsphere_on_cloud.Controllers.StorageNode.Reconcile.{contains, reconcile, reconcile_found}
use shardingsphere_on_cloud.Controllers.StorageNode.Completion.{
  finalizer_removed, status_written, gone_completes,
}
use shardingsphere_on_cloud.Controllers.StorageNode.Creation.{
  Begins, with_finalizer, adds_finalizer, creates_database, finalizer_before_create,
  never_recreated,
}
use shardingsphere_on_cloud.Examples.Data.{
  sdk, credentials, now, serving_status, node, provider, instance, env, gone_env,
}
use shardingsphere_on_cloud.Examples.Nodes.{leaving_node, complete_node, new_node}

finalizer_removed_example :
    (written : StorageNode) × ((run env (finalize sdk now complete_node provider)).1
      ≡ update_storage_node written ∷ [])
    × ((f : String)
        → contains written.finalizers f
          ≡ (if f == finalizer_name then false else contains complete_node.finalizers f))
finalizer_removed_example = finalizer_removed sdk now env complete_node provider refl

gone_completes_example :
    (written : StorageNode) × ((run gone_env (finalize sdk now leaving_node provider)).1
      ≡ update_storage_node_status written ∷ describe_instance "orders-1" ∷ [])
    × (written.status.phase ≡ delete_complete)
unfolding find
gone_completes_example =
    gone_completes sdk now gone_env leaving_node provider "orders-1" refl refl refl refl refl
      (λ p. cc) refl

status_written_example :
    (run_from env [] (write_status sdk now serving_status node)).1
    ≡ update_storage_node_status
        (record node { status = compute_desired_state sdk now node.status })
      ∷ []
status_written_example = status_written sdk now env [] serving_status node

finalizer_before_create_example :
    Begins
      (update_storage_node (with_finalizer new_node))
      (run gone_env (reconcile_found sdk credentials now new_node provider)).1
    × Precedes
        (adds_finalizer new_node)
        creates_database
        (run gone_env (reconcile_found sdk credentials now new_node provider)).1
unfolding contains
finalizer_before_create_example =
    finalizer_before_create sdk credentials now gone_env new_node provider refl refl

never_recreated_example :
    All (Fails creates_database) (run env (reconcile sdk credentials now node provider)).1
unfolding find
never_recreated_example =
    never_recreated sdk credentials now env node provider refl
      (inr ("orders-1", instance, refl, refl))
