-- ===== src/Aws/Aurora.antt =====
-- pkg/reconcile/storagenode/aws/aurora.go
pub mod Required
use shardingsphere_on_cloud.Prelude.{Bool, true, false, none, some, Option, [], ◌∷◌}
use shardingsphere_on_cloud.Go.{cite}
use shardingsphere_on_cloud.Go.Map.{GoMap, find, get}
use shardingsphere_on_cloud.Api.StorageNode.{StorageNode}
use shardingsphere_on_cloud.Api.StorageProvider.{
  StorageProvider, ReclaimPolicy, delete_with_final_snapshot, delete, retain, other_policy,
  annotations_cluster_identifier, annotations_instance_db_name,
}
use shardingsphere_on_cloud.Sdk.{Sdk, DescCluster}
use shardingsphere_on_cloud.Effects.{
  AuroraParams, Prog, done, pure, call, on_error, ◌>>=◌, ◌>>◌, create_aurora, delete_aurora,
  describe_aurora,
}
use shardingsphere_on_cloud.Aws.Identifier.{with_identifier}
use shardingsphere_on_cloud.Aws.Cluster.{put_identifier, check_required, publicly, vpc_groups}

abbrev pub required_aurora_params : GoMap
required_aurora_params =
    ("instanceClass", "instance class is empty")
    ∷ ("engine", "engine is empty")
    ∷ ("engineVersion", "engine version is empty")
    ∷ ("clusterIdentifier", "cluster identifier is empty")
    ∷ ("masterUsername", "master username is empty")
    ∷ ("masterUserPassword", "master user password is empty")
    ∷ []

unfoldable pub aurora_of : StorageNode → GoMap → AuroraParams
aurora_of node params = record {
  db_instance_class = get "instanceClass" params;
  engine = get "engine" params;
  engine_version = get "engineVersion" params;
  db_cluster_identifier = get "clusterIdentifier" params;
  master_username = get "masterUsername" params;
  master_user_password = get "masterUserPassword" params;
  instance_number = node.spec.replicas;
  db_name = find annotations_instance_db_name node.annotations;
  publicly_accessible = publicly params;
  vpc_security_group_ids = vpc_groups params;
}

-- The setters of the reclaim policy: delete the automated backups, skip the final snapshot. Of any
-- other text neither is set.
abbrev pub aurora_policy : ReclaimPolicy → Option (Bool × Bool)
aurora_policy delete = some (true, true)
aurora_policy retain = some (false, true)
aurora_policy delete_with_final_snapshot = some (true, false)
aurora_policy other_policy = none

-- `GetAuroraCluster`
unfoldable pub get_aurora_cluster : StorageNode → Prog (Option DescCluster)
get_aurora_cluster node =
    with_identifier "cluster identifier is empty"
      (find annotations_cluster_identifier node.annotations)
      (λ identifier. call (describe_aurora identifier))

-- `DeleteAuroraCluster`
unfoldable pub delete_aurora_cluster : StorageNode → StorageProvider → Prog (Unit {0})
delete_aurora_cluster node provider =
    with_identifier "cluster identifier is empty"
      (find annotations_cluster_identifier node.annotations)
      (λ identifier. call (delete_aurora identifier (aurora_policy provider.reclaim_policy)))

module _ (sdk : Sdk) where
  unfoldable pub validate_create_aurora_params : StorageNode → GoMap → Prog GoMap
  validate_create_aurora_params node params = do
    named ← done (put_identifier node params)
    done (check_required (sdk.visit required_aurora_params) named)
    pure named

  -- `CreateAuroraCluster`, which returns the parameters that it wrote to
  unfoldable pub create_aurora_cluster : StorageNode → GoMap → Prog GoMap
  create_aurora_cluster node params = do
    valid ← validate_create_aurora_params node params
    on_error (cite "create aurora cluster failed, ") (call (create_aurora (aurora_of node valid)))
    pure valid
