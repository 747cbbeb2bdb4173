-- ===== src/Controllers/StorageNode/Reconcile.antt =====
-- `Reconcile`, `reconcile` and `getStorageProvider` of
-- pkg/controllers/storage_node_controller.go.
use shardingsphere_on_cloud.Controllers.StorageNode.Store.{Credentials, finish, stop, write_status}
use shardingsphere_on_cloud.Controllers.StorageNode.Finalize.{finalizer_name, finalize}
use shardingsphere_on_cloud.Prelude.{
  String, Bool, true, false, List, [], ◌∷◌, ◌++◌, ◌==◌, ◌&&◌, ◌||◌, if◌then◌else◌,
}
use shardingsphere_on_cloud.Go.{text}
use shardingsphere_on_cloud.Sdk.{Sdk}
use shardingsphere_on_cloud.Api.StorageNode.{StorageNode, StorageNodeStatus}
use shardingsphere_on_cloud.Api.StorageProvider.{
  StorageProvider, Provisioner, aws_rds_instance, aws_rds_cluster, aws_aurora, cloud_native_pg,
  unsupported,
}
use shardingsphere_on_cloud.Effects.{
  Prog, attempt, pure, fail, call, event, ◌>>=◌, ◌>>◌, get_storage_node, get_storage_provider,
  update_storage_node,
}
use shardingsphere_on_cloud.Controllers.{Verdict, no_requeue, requeue_now, requeue_later}
use shardingsphere_on_cloud.Controllers.StorageNode.Status.{Stamps}
use shardingsphere_on_cloud.Controllers.StorageNode.Database.{
  reconcile_aws_rds_instance, reconcile_aws_rds_cluster, reconcile_aws_aurora,
}
use shardingsphere_on_cloud.Controllers.StorageNode.Unit.{register_unit}
use shardingsphere_on_cloud.Controllers.StorageNode.CloudNative.{reconcile_cloud_native_pg}

-- `slices.Contains`
unfoldable pub contains : List String → String → Bool
contains [] s = false
contains (x ∷ xs) s = (x == s) || contains xs s

abbrev pub is_aws : Provisioner → Bool
is_aws aws_rds_instance = true
is_aws aws_rds_cluster = true
is_aws aws_aurora = true
is_aws _ = false

module _ (sdk : Sdk) (credentials : Credentials) (now : Stamps) where
  -- `getStorageProvider`
  unfoldable pub get_provider : StorageNode → Prog StorageProvider
  get_provider node =
      if node.spec.storage_provider_name == ""
      then (do event "storageProviderNameIsNil"; fail (text "storageProviderName is nil"))
      else attempt (call (get_storage_provider node.spec.storage_provider_name))
          (λ e. do event "storageProviderNotFound"; fail e)
          (λ provider.
            if is_aws provider.provisioner
              && ((credentials.aws_region == "")
                  || (credentials.aws_access_key_id == "")
                  || (credentials.aws_secret_access_key == ""))
            then (do event "awsCredentialsNotSet"; fail (text "aws credentials not set"))
            else pure provider)

  -- `reconcile` after its `switch`
  unfoldable pub register_and_write :
      StorageNodeStatus → StorageNode → StorageProvider → Prog Verdict
  register_and_write old_status node provider =
      attempt (register_unit sdk node provider)
        (λ e. do event "RegisterStorageUnitFailed"; stop requeue_now e)
        (λ registered. write_status sdk now old_status registered)

  -- A case of the `switch`: the error is reported and ends the reconciliation.
  abbrev reconciled : Prog (StorageNode × StorageProvider) → StorageNodeStatus → Prog Verdict
  reconciled m old_status =
      attempt m (λ e. do event "Reconcile Failed"; stop requeue_later e)
        (λ r. register_and_write old_status r.0 r.1)

  unfoldable pub reconcile_provisioner : Provisioner → StorageNode → StorageProvider → Prog Verdict
  reconcile_provisioner aws_rds_instance node provider =
      reconciled (reconcile_aws_rds_instance sdk node provider) node.status
  reconcile_provisioner aws_rds_cluster node provider =
      reconciled (reconcile_aws_rds_cluster sdk node provider) node.status
  reconcile_provisioner aws_aurora node provider =
      reconciled (reconcile_aws_aurora sdk node provider) node.status
  reconcile_provisioner cloud_native_pg node provider =
      reconciled
        (do updated ← reconcile_cloud_native_pg sdk node provider; pure (updated, provider))
        node.status
  reconcile_provisioner (unsupported _) node provider = do
    event "UnsupportedDatabaseProvisioner"
    finish requeue_later

  -- `reconcile`
  unfoldable pub reconcile : StorageNode → StorageProvider → Prog Verdict
  reconcile node provider = reconcile_provisioner provider.provisioner node provider

  -- `Reconcile` once the node and its provider are there
  unfoldable pub reconcile_found : StorageNode → StorageProvider → Prog Verdict
  reconcile_found node provider =
      if node.deletion_timestamp_is_zero
      then (if contains node.finalizers finalizer_name
          then reconcile node provider
          else attempt
              (call (
                update_storage_node
                  (record node { finalizers = node.finalizers ++ finalizer_name ∷ [] })))
              (λ e. stop no_requeue e) (λ updated. reconcile updated provider))
      else if contains node.finalizers finalizer_name
      then finalize sdk now node provider
      else reconcile node provider

  -- `Reconcile` of the node named in the request; a node that is gone is no error.
  unfoldable pub reconcile_request : String → String → Prog Verdict
  reconcile_request namespace name =
      attempt (call (get_storage_node namespace name))
        (λ e. if sdk.is_not_found e then finish no_requeue else stop no_requeue e)
        (λ node.
          attempt (get_provider node) (λ e. stop requeue_now e)
            (λ provider. reconcile_found node provider))
