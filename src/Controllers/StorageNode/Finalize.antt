-- ===== src/Controllers/StorageNode/Finalize.antt =====
-- `finalize` and `finalizeCloudNativePG` of pkg/controllers/storage_node_controller.go.
use shardingsphere_on_cloud.Controllers.StorageNode.Store.{finish, stop, write_status}
use shardingsphere_on_cloud.Prelude.{
  String, Option, none, some, List, [], ◌∷◌, ◌==◌, not, if◌then◌else◌,
}
use shardingsphere_on_cloud.Sdk.{Sdk, PgCluster}
use shardingsphere_on_cloud.Api.StorageNode.{
  StorageNode, StorageNodeStatus, Phase, ready, not_ready, deleting, delete_complete, other,
}
use shardingsphere_on_cloud.Api.StorageProvider.{StorageProvider, Provisioner, cloud_native_pg}
use shardingsphere_on_cloud.Effects.{
  Prog, attempt, pure, call, update_storage_node, delete_pg_cluster,
}
use shardingsphere_on_cloud.Controllers.{Verdict, no_requeue, requeue_now, requeue_later}
use shardingsphere_on_cloud.Controllers.StorageNode.Status.{Stamps}
use shardingsphere_on_cloud.Controllers.StorageNode.Database.{delete_database_cluster}
use shardingsphere_on_cloud.Controllers.StorageNode.Unit.{unregister_unit}
use shardingsphere_on_cloud.Controllers.StorageNode.CloudNative.{get_cluster_by_name}

abbrev pub finalizer_name : String
finalizer_name = "shardingsphere.apache.org/finalizer"

-- `ChaosFinalizerName` of pkg/controllers/chaos_controller.go, the same text
abbrev pub chaos_finalizer_name : String
chaos_finalizer_name = "shardingsphere.apache.org/finalizer"

-- `slices.Filter` by `f != name`, and `controllerutil.RemoveFinalizer`
unfoldable pub without : List String → String → List String
without [] s = []
without (x ∷ xs) s = let rest = without xs s in if not (x == s) then x ∷ rest else rest

abbrev pub with_phase : StorageNode → Phase → StorageNode
with_phase node phase = record node { status = record node.status { phase = phase } }

-- The case `DeleteComplete`: the finalizer goes, and an error of the update is only logged.
unfoldable pub remove_finalizer : StorageNode → Prog Verdict
remove_finalizer node =
    attempt
      (call
        (update_storage_node (record node { finalizers = without node.finalizers finalizer_name })))
      (λ _. finish no_requeue) (λ _. finish no_requeue)

unfoldable pub delete_pg_cluster_if : Option PgCluster → Prog (Unit {0})
delete_pg_cluster_if none = pure tt
delete_pg_cluster_if (some cluster) = call (delete_pg_cluster cluster)

-- `finalizeCloudNativePG`
unfoldable pub finalize_cloud_native_pg : Sdk → StorageNode → Prog Verdict
finalize_cloud_native_pg sdk node =
    attempt (get_cluster_by_name sdk node.namespace node.name) (λ e. stop requeue_now e)
      (λ cluster.
        attempt (delete_pg_cluster_if cluster) (λ e. stop requeue_now e)
          (λ _.
            attempt
              (call (
                update_storage_node
                  (record node { finalizers = without node.finalizers chaos_finalizer_name })))
              (λ e. stop no_requeue e) (λ _. finish requeue_later)))

module _ (sdk : Sdk) (now : Stamps) where
  -- `finalize` after its `switch`, of a node that is being deleted
  unfoldable pub finalize_deleting :
      StorageNodeStatus → StorageNode → StorageProvider → Prog Verdict
  finalize_deleting old_status node provider =
      attempt (unregister_unit sdk node) (λ e. stop requeue_later e)
        (λ unregistered.
          attempt (delete_database_cluster sdk unregistered provider) (λ e. stop requeue_later e)
            (λ deleted. write_status sdk now old_status deleted))

  unfoldable pub finalize_provisioner :
      Provisioner → StorageNodeStatus → StorageNode → StorageProvider → Prog Verdict
  finalize_provisioner cloud_native_pg old_status node provider = finalize_cloud_native_pg sdk node
  finalize_provisioner _ old_status node provider = finalize_deleting old_status node provider

  -- The `switch` of `finalize`
  unfoldable pub finalize_phase : Phase → StorageNode → StorageProvider → Prog Verdict
  finalize_phase delete_complete node provider = remove_finalizer node
  finalize_phase ready node provider =
      finalize_provisioner provider.provisioner node.status (with_phase node deleting) provider
  finalize_phase not_ready node provider =
      finalize_provisioner provider.provisioner node.status (with_phase node deleting) provider
  finalize_phase deleting node provider =
      finalize_provisioner provider.provisioner node.status node provider
  finalize_phase (other _) node provider =
      finalize_provisioner provider.provisioner node.status node provider

  -- `finalize`
  unfoldable pub finalize : StorageNode → StorageProvider → Prog Verdict
  finalize node provider = finalize_phase node.status.phase node provider
