-- ===== src/Controllers/StorageNode/Database.antt =====
-- The database of a storage node: `reconcileAws…`, `update…Status` and `deleteDatabaseCluster` of
-- pkg/controllers/storage_node_controller.go. A function that writes to the node, or to the
-- parameters of the provider, returns them.
use shardingsphere_on_cloud.Prelude.{
  String, Option, none, some, List, [], ◌∷◌, map, ◌==◌, if◌then◌else◌,
}
use shardingsphere_on_cloud.Go.{text, wrap}
use shardingsphere_on_cloud.Go.Map.{GoMap, get}
use shardingsphere_on_cloud.Sdk.{Sdk, DescInstance, DescCluster}
use shardingsphere_on_cloud.Api.StorageNode.{
  StorageNode, ClusterStatus, InstanceStatus, is_deleting,
}
use shardingsphere_on_cloud.Api.StorageProvider.{
  StorageProvider, Provisioner, aws_rds_instance, aws_rds_cluster, aws_aurora,
  annotations_cluster_identifier, annotations_instance_identifier,
}
use shardingsphere_on_cloud.Effects.{Prog, attempt, pure, fail, event, on_error, ◌>>=◌, ◌>>◌}
use shardingsphere_on_cloud.Aws.Instance.{
  create_db_instance, get_db_instance, get_db_instances_by_filters, delete_db_instance,
}
use shardingsphere_on_cloud.Aws.Cluster.{create_rds_cluster, get_rds_cluster, delete_rds_cluster}
use shardingsphere_on_cloud.Aws.Aurora.{
  create_aurora_cluster, get_aurora_cluster, delete_aurora_cluster,
}

abbrev pub instance_status : DescInstance → InstanceStatus
instance_status i = record { status = i.status; endpoint = i.endpoint; properties = [] }

abbrev pub set_instances : StorageNode → List InstanceStatus → StorageNode
set_instances node instances = record node { status = record node.status { instances = instances } }

-- `updateAWSRDSInstanceStatus`, which never fails
unfoldable pub update_aws_rds_instance_status : StorageNode → Option DescInstance → StorageNode
update_aws_rds_instance_status node none = set_instances node []
update_aws_rds_instance_status node (some i) = set_instances node (instance_status i ∷ [])

unfoldable pub cluster_status : Option DescCluster → ClusterStatus
cluster_status none = record {
  status = "";
  primary_endpoint = record { address = ""; port = 0 };
  reader_endpoints = [];
  properties = [];
}
cluster_status (some c) = record {
  status = c.status;
  primary_endpoint = record { address = c.primary_endpoint; port = c.port };
  reader_endpoints = record { address = c.reader_endpoint; port = c.port } ∷ [];
  properties = [];
}

-- `updateClusterStatus`
unfoldable pub update_cluster_status : StorageNode → Option DescCluster → Prog StorageNode
update_cluster_status node cluster = do
  let identifier = get annotations_cluster_identifier node.annotations
  instances ←
      on_error (wrap "GetInstances failed")
        (get_db_instances_by_filters (("db-cluster-id", identifier ∷ []) ∷ []))
  pure (record node {
    status = record node.status {
      cluster = cluster_status cluster;
      instances = map instance_status instances;
    };
  })

abbrev pub with_parameters : StorageProvider → GoMap → StorageProvider
with_parameters provider parameters = record provider { parameters = parameters }

module _ (sdk : Sdk) where
  -- The create branch of `reconcileAwsRdsInstance`.
  unfoldable pub create_missing_instance :
      StorageNode → StorageProvider → Prog (StorageNode × StorageProvider × Option DescInstance)
  create_missing_instance node provider = do
    created ← create_db_instance sdk node provider.parameters
    instance ← get_db_instance created.0
    pure (created.0, with_parameters provider created.1, instance)

  unfoldable pub find_or_create_instance :
      StorageNode
      → StorageProvider
      → Option DescInstance
      → Prog (StorageNode × StorageProvider × Option DescInstance)
  find_or_create_instance node provider none =
      if is_deleting node.status.phase
      then pure (node, provider, none)
      else create_missing_instance node provider
  find_or_create_instance node provider (some instance) = pure (node, provider, some instance)

  -- `reconcileAwsRdsInstance`
  unfoldable pub reconcile_aws_rds_instance :
      StorageNode → StorageProvider → Prog (StorageNode × StorageProvider)
  reconcile_aws_rds_instance node provider = do
    instance ← get_db_instance node
    found ← find_or_create_instance node provider instance
    pure (update_aws_rds_instance_status found.0 found.2, found.1)

  -- The shape that `reconcileAwsRDSCluster` and `reconcileAwsAurora` share: the two differ in the
  -- client's methods `get_cluster` and `create`.
  module _ (get_cluster : StorageNode → Prog (Option DescCluster))
      (create : StorageNode → GoMap → Prog GoMap) where
    unfoldable pub find_or_create_cluster :
        StorageNode
        → StorageProvider
        → Option DescCluster
        → Prog (StorageProvider × Option DescCluster)
    find_or_create_cluster node provider none = do
      parameters ← create node provider.parameters
      cluster ← get_cluster node
      pure (with_parameters provider parameters, cluster)
    find_or_create_cluster node provider (some cluster) = pure (provider, some cluster)

    unfoldable pub reconcile_cluster :
        StorageNode → StorageProvider → Prog (StorageNode × StorageProvider)
    reconcile_cluster node provider = do
      cluster ← get_cluster node
      found ← find_or_create_cluster node provider cluster
      updated ← on_error (wrap "updateClusterStatus failed") (update_cluster_status node found.1)
      pure (updated, found.0)

  -- `reconcileAwsRDSCluster`
  unfoldable pub reconcile_aws_rds_cluster :
      StorageNode → StorageProvider → Prog (StorageNode × StorageProvider)
  reconcile_aws_rds_cluster = reconcile_cluster get_rds_cluster (create_rds_cluster sdk)

  -- `reconcileAwsAurora`
  unfoldable pub reconcile_aws_aurora :
      StorageNode → StorageProvider → Prog (StorageNode × StorageProvider)
  reconcile_aws_aurora = reconcile_cluster get_aurora_cluster (create_aurora_cluster sdk)

  -- The deletion, reported to the event recorder either way.
  abbrev pub reporting : Prog (Unit {0}) → Prog (Unit {0})
  reporting delete = attempt delete (λ e. do event "DeleteFailed"; fail e) (λ _. event "Deleting")

  unfoldable pub delete_instance_unless_deleting :
      StorageNode → StorageProvider → Option DescInstance → Prog (Unit {0})
  delete_instance_unless_deleting node provider none = pure tt
  delete_instance_unless_deleting node provider (some i) =
      if i.status == sdk.db_instance_status_deleting
      then pure tt
      else reporting (delete_db_instance sdk node provider)

  -- `deleteAWSRDSInstance`
  unfoldable pub delete_aws_rds_instance : StorageNode → StorageProvider → Prog StorageNode
  delete_aws_rds_instance node provider =
      if get annotations_instance_identifier node.annotations == "" then pure node else (do
        instance ← get_db_instance node
        delete_instance_unless_deleting node provider instance
        pure (update_aws_rds_instance_status node instance))

  -- The shape that `deleteAWSRDSCluster` and `deleteAWSAurora` share.
  module _ (message : String) (get_cluster : StorageNode → Prog (Option DescCluster))
      (delete : StorageNode → StorageProvider → Prog (Unit {0})) where
    unfoldable pub delete_cluster_unless_deleting :
        StorageNode → StorageProvider → Option DescCluster → Prog (Unit {0})
    delete_cluster_unless_deleting node provider none = pure tt
    delete_cluster_unless_deleting node provider (some c) =
        if c.status == sdk.db_cluster_status_deleting
        then pure tt
        else reporting (delete node provider)

    unfoldable pub delete_identified_cluster : StorageNode → StorageProvider → Prog StorageNode
    delete_identified_cluster node provider = do
      cluster ← on_error (wrap message) (get_cluster node)
      delete_cluster_unless_deleting node provider cluster
      on_error (wrap "updateClusterStatus failed") (update_cluster_status node cluster)

    -- A node without an identifier has no cluster to delete.
    unfoldable pub delete_annotated_cluster : StorageNode → StorageProvider → Prog StorageNode
    delete_annotated_cluster node provider =
        if get annotations_cluster_identifier node.annotations == ""
        then pure node
        else delete_identified_cluster node provider

  -- `deleteAWSRDSCluster`
  unfoldable pub delete_aws_rds_cluster : StorageNode → StorageProvider → Prog StorageNode
  delete_aws_rds_cluster =
      delete_annotated_cluster "get rds cluster failed" get_rds_cluster (delete_rds_cluster sdk)

  -- `deleteAWSAurora`
  unfoldable pub delete_aws_aurora : StorageNode → StorageProvider → Prog StorageNode
  delete_aws_aurora =
      delete_annotated_cluster "get aurora cluster failed" get_aurora_cluster delete_aurora_cluster

  -- The `switch` of `deleteDatabaseCluster`
  unfoldable pub delete_by_provisioner :
      Provisioner → StorageNode → StorageProvider → Prog StorageNode
  delete_by_provisioner aws_rds_instance node provider =
      on_error (wrap "delete aws rds instance failed") (delete_aws_rds_instance node provider)
  delete_by_provisioner aws_rds_cluster node provider =
      on_error (wrap "delete aws rds cluster failed") (delete_aws_rds_cluster node provider)
  delete_by_provisioner aws_aurora node provider =
      on_error (wrap "delete aws aurora cluster failed") (delete_aws_aurora node provider)
  delete_by_provisioner _ node provider = fail (text "unsupported database provisioner")

  -- `deleteDatabaseCluster`
  unfoldable pub delete_database_cluster : StorageNode → StorageProvider → Prog StorageNode
  delete_database_cluster node provider = delete_by_provisioner provider.provisioner node provider
