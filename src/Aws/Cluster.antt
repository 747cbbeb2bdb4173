-- ===== src/Aws/Cluster.antt =====
-- pkg/reconcile/storagenode/aws/rdscluster.go
pub mod Bounds
pub mod Deletion
use Prim.Native.String.{len}
use shardingsphere_on_cloud.Prelude.{
  ℕ, ◌*◌, String, Bool, true, false, Option, none, some, [], ◌∷◌, ◌==◌, ◌&&◌, ◌||◌, not, ltb,
  if◌then◌else◌,
}
use shardingsphere_on_cloud.Go.{Result, ok, err, text, cite}
use shardingsphere_on_cloud.Go.Map.{GoMap, find, get, put}
use shardingsphere_on_cloud.Go.Text.{split_first}
use shardingsphere_on_cloud.Go.Number.{ℤ, pos, negsuc, parse_int, int32}
use shardingsphere_on_cloud.Api.StorageNode.{StorageNode}
use shardingsphere_on_cloud.Api.StorageProvider.{
  StorageProvider, ReclaimPolicy, delete_with_final_snapshot, delete, retain, other_policy,
  annotations_cluster_identifier, annotations_instance_db_name,
  annotations_final_snapshot_identifier,
}
use shardingsphere_on_cloud.Sdk.{Sdk, DescCluster}
use shardingsphere_on_cloud.Aws.Identifier.{with_identifier}
use shardingsphere_on_cloud.Effects.{
  ClusterParams, Prog, done, pure, fail, call, on_error, ◌>>=◌, ◌>>◌, create_cluster,
  delete_cluster, describe_cluster,
}

abbrev pub required_cluster_params : GoMap
required_cluster_params =
    ("instanceClass", "instance class is empty")
    ∷ ("engine", "engine is empty")
    ∷ ("engineVersion", "engine version is empty")
    ∷ ("clusterIdentifier", "cluster identifier is empty")
    ∷ ("masterUsername", "master username is empty")
    ∷ ("masterUserPassword", "master user password is empty")
    ∷ ("allocatedStorage", "allocated storage is empty")
    ∷ ("iops", "iops is empty")
    ∷ ("storageType", "storage type is empty")
    ∷ []

-- The loop over the required parameters: the first that is missing ends it.
unfoldable pub check_required : GoMap → GoMap → Result (Unit {0})
check_required [] params = ok tt
check_required ((k, v) ∷ rest) params =
    if get k params == "" then err (text v) else check_required rest params

-- The cluster identifier of the node, written to the parameters; it has at most 50 bytes.
unfoldable pub put_identifier : StorageNode → GoMap → Result GoMap
put_identifier node params =
    let v = get annotations_cluster_identifier node.annotations in
    if v == ""
    then err (text "cluster identifier is empty")
    else if ltb 50 (len v)
    then err (text "cluster identifier is too long, max length is 50")
    else ok (put "clusterIdentifier" v params)

unfoldable pub check_engine : GoMap → Result (Unit {0})
check_engine params =
    if (get "engine" params == "mysql") && not (split_first (get "engineVersion" params) "." == "8")
    then err (text "mysql engine version is not supported, only support 8.x")
    else if not (get "storageType" params == "io1")
    then err (text "storage type is not supported, only support io1")
    else ok tt

-- `strconv.Atoi` and the range test of `getAllocatedStorage` and `getIOPS`.
abbrev bounded : String → String → ℕ → ℕ → Option ℤ → Result ℕ
bounded bad range lo hi none = err (cite bad (text "strconv.Atoi"))
bounded bad range lo hi (some (pos n)) = if ltb n lo || ltb hi n then err (text range) else ok n
bounded bad range lo hi (some (negsuc n)) = err (text range)

unfoldable pub get_allocated_storage : String → Result ℕ
get_allocated_storage s =
    bounded "allocated storage is not a number, "
      "allocated storage is out of range, min is 100, max is 65536" 100 65536 (parse_int s)

unfoldable pub get_iops : String → Result ℕ
get_iops s =
    bounded "iops is not a number, " "iops is out of range, min is 1000, max is 256000" 1000 256000
      (parse_int s)

abbrev non_empty : Option String → Option String
non_empty none = none
non_empty (some v) = if v == "" then none else some v

-- `if v, ok := params["publicAccessible"]; ok && v == "false"`
abbrev pub publicly : GoMap → Bool
publicly params = not (get "publicAccessible" params == "false")

-- The groups are split at the commas by the setter's argument.
abbrev pub vpc_groups : GoMap → Option String
vpc_groups params = let v = get "vpcSecurityGroupIds" params in if v == "" then none else some v

unfoldable pub cluster_of : StorageNode → GoMap → ℕ → ℕ → ClusterParams
cluster_of node params storage iops = record {
  engine = get "engine" params;
  engine_version = get "engineVersion" params;
  db_cluster_identifier = get "clusterIdentifier" params;
  master_username = get "masterUsername" params;
  master_user_password = get "masterUserPassword" params;
  allocated_storage = int32 (pos storage);
  db_cluster_instance_class = get "instanceClass" params;
  iops = int32 (pos iops);
  storage_type = get "storageType" params;
  database_name = non_empty (find annotations_instance_db_name node.annotations);
  publicly_accessible = publicly params;
  vpc_security_group_ids = vpc_groups params;
}

-- `GetRDSCluster`
unfoldable pub get_rds_cluster : StorageNode → Prog (Option DescCluster)
get_rds_cluster node =
    with_identifier "cluster identifier is empty"
      (find annotations_cluster_identifier node.annotations)
      (λ identifier. call (describe_cluster identifier))

module _ (sdk : Sdk) where
  unfoldable pub validate_create_rds_cluster_params : StorageNode → GoMap → Prog GoMap
  validate_create_rds_cluster_params node params = do
    named ← done (put_identifier node params)
    done (check_required (sdk.visit required_cluster_params) named)
    done (check_engine named)
    pure named

  -- `CreateRDSCluster`, which returns the parameters that it wrote to
  unfoldable pub create_rds_cluster : StorageNode → GoMap → Prog GoMap
  create_rds_cluster node params = do
    valid ← validate_create_rds_cluster_params node params
    storage ← done (get_allocated_storage (get "allocatedStorage" valid))
    iops ← done (get_iops (get "iops" valid))
    if ltb (storage * 50) iops || ltb (iops * 2) storage
        then fail (text "the IOPS to GiB ratio must be between 0.5 and 50")
        else do
          on_error (cite "create rds cluster failed, ")
              (call (create_cluster (cluster_of node valid storage iops)))
          pure valid

  -- The `switch` on the reclaim policy of a cluster that is there and not being deleted.
  unfoldable pub delete_with_policy :
      StorageNode → String → ReclaimPolicy → DescCluster → Prog (Unit {0})
  delete_with_policy node identifier delete cluster =
      call (delete_cluster identifier none (some true))
  delete_with_policy node identifier delete_with_final_snapshot cluster =
      let snapshot = get annotations_final_snapshot_identifier node.annotations in
      if snapshot == ""
      then fail (text "final snapshot identifier is empty")
      else if not (cluster.status == sdk.db_cluster_status_available)
      then fail (text "rds cluster is not available, can not delete with final snapshot")
      else call (delete_cluster identifier (some snapshot) (some false))
  delete_with_policy node identifier retain cluster =
      fail (text "rds cluster does not support retain policy")
  delete_with_policy node identifier other_policy cluster =
      call (delete_cluster identifier none none)

  unfoldable pub delete_found :
      StorageNode → String → ReclaimPolicy → Option DescCluster → Prog (Unit {0})
  delete_found node identifier reclaim none = pure tt
  delete_found node identifier reclaim (some cluster) =
      if cluster.status == sdk.db_cluster_status_deleting
      then pure tt
      else delete_with_policy node identifier reclaim cluster

  -- `DeleteRDSCluster`
  unfoldable pub delete_rds_cluster : StorageNode → StorageProvider → Prog (Unit {0})
  delete_rds_cluster node provider =
      with_identifier "cluster identifier is empty"
        (find annotations_cluster_identifier node.annotations)
        (λ identifier. do
          cluster ←
              on_error (cite "describe rds cluster failed, ") (call (describe_cluster identifier))
          delete_found node identifier provider.reclaim_policy cluster)
