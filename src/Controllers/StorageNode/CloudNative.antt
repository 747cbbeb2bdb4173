-- ===== src/Controllers/StorageNode/CloudNative.antt =====
-- The CloudNativePG branch of pkg/controllers/storage_node_controller.go, with
-- `GetClusterByNamespacedName` of pkg/kubernetes/cloudnative-pg/cloudnative-pg.go.
use shardingsphere_on_cloud.Prelude.{
  String, Option, none, some, List, [], ◌∷◌, ◌++◌, map, ◌==◌, not, if◌then◌else◌,
}
use shardingsphere_on_cloud.Sdk.{Sdk, PgCluster}
use shardingsphere_on_cloud.Api.StorageNode.{
  StorageNode, InstanceStatus, Endpoint, ready, not_ready,
}
use shardingsphere_on_cloud.Api.StorageProvider.{StorageProvider}
use shardingsphere_on_cloud.Effects.{
  Prog, attempt, pure, fail, call, ◌>>=◌, ◌>>◌, get_pg_cluster, create_pg_cluster,
  update_pg_cluster,
}

abbrev pub endpoint_5432 : String → Endpoint
endpoint_5432 address = record { address = address; port = 5432 }

module _ (sdk : Sdk) where
  -- `GetClusterByNamespacedName`: not found is no error.
  unfoldable pub get_cluster_by_name : String → String → Prog (Option PgCluster)
  get_cluster_by_name namespace name =
      attempt (call (get_pg_cluster namespace name))
        (λ e. if sdk.is_not_found e then pure none else fail e) (λ c. pure (some c))

  -- The two loops over the instances of each status.
  unfoldable pub instances_of : List (String × List String) → List InstanceStatus
  instances_of [] = []
  instances_of ((s, pgins) ∷ rest) =
      let stat = if s == sdk.pod_healthy then "available" else s in
      map (λ pg. record { status = stat; endpoint = endpoint_5432 pg; properties = [] }) pgins
      ++ instances_of rest

  -- `updateCloudNativePGCluster`, the function, which never fails
  unfoldable pub update_status_from : StorageNode → Option PgCluster → StorageNode
  update_status_from node none = node
  update_status_from node (some c) =
      let healthy = c.phase == sdk.phase_healthy in
      record node {
        status = record node.status {
          phase = if healthy then ready else not_ready;
          cluster = record {
            status = if healthy then "available" else "";
            primary_endpoint = endpoint_5432 c.write_service;
            reader_endpoints = endpoint_5432 c.read_service ∷ [];
            properties = [];
          };
          instances = instances_of c.instances_status;
        };
      }

  -- `createCloudNativePGCluster`: a cluster that is there already is no error.
  unfoldable pub create_cloud_native_pg_cluster : StorageNode → StorageProvider → Prog (Unit {0})
  create_cloud_native_pg_cluster node provider =
      attempt (call (create_pg_cluster (sdk.build_cluster node provider)))
        (λ e. if sdk.is_already_exists e then pure tt else fail e) (λ _. pure tt)

  -- `updateCloudNativePGCluster`, the method: the metadata is kept, and a spec that differs is
  -- written.
  unfoldable pub update_cloud_native_pg_cluster :
      StorageNode → StorageProvider → PgCluster → Prog (Unit {0})
  update_cloud_native_pg_cluster node provider cluster =
      let exp : PgCluster = record (sdk.build_cluster node provider) {
        object_meta = cluster.object_meta;
        labels = cluster.labels;
        annotations = cluster.annotations;
      } in
      if not (cluster.spec == exp.spec) then call (update_pg_cluster exp) else pure tt

  unfoldable pub apply_cluster : StorageNode → StorageProvider → Option PgCluster → Prog (Unit {0})
  apply_cluster node provider none = create_cloud_native_pg_cluster node provider
  apply_cluster node provider (some cluster) = update_cloud_native_pg_cluster node provider cluster

  -- `reconcileCloudNativePG`
  unfoldable pub reconcile_cloud_native_pg : StorageNode → StorageProvider → Prog StorageNode
  reconcile_cloud_native_pg node provider = do
    cluster ← get_cluster_by_name node.namespace node.name
    let updated = update_status_from node cluster
    apply_cluster updated provider cluster
    pure updated
