-- ===== src/Examples/Aws.antt =====
-- The AWS client at concrete inputs.
use shardingsphere_on_cloud.Prelude.{refl, All}
use shardingsphere_on_cloud.Effects.Run.{run}
use shardingsphere_on_cloud.Aws.Cluster.{create_rds_cluster, delete_rds_cluster}
use shardingsphere_on_cloud.Aws.Cluster.Deletion.{
  DeletesByPolicy, delete_rds_cluster-DeletesByPolicy,
}
use shardingsphere_on_cloud.Aws.Cluster.Bounds.{
  CreatesWithinLimits, create_rds_cluster-CreatesWithinLimits,
}
use shardingsphere_on_cloud.Aws.Instance.{create_db_instance}
use shardingsphere_on_cloud.Aws.Instance.Filling.{Creates}
use shardingsphere_on_cloud.Aws.Instance.Validity.{IsComplete, create_db_instance-IsComplete}
use shardingsphere_on_cloud.Aws.Aurora.{create_aurora_cluster}
use shardingsphere_on_cloud.Aws.Aurora.Required.{
  CreatesClusterOf, create_aurora_cluster-CreatesClusterOf,
}
use shardingsphere_on_cloud.Examples.Data.{sdk, node, provider, cluster_parameters, env}
use shardingsphere_on_cloud.Examples.Nodes.{cluster_node}

create_rds_cluster-CreatesWithinLimits_example :
    All CreatesWithinLimits (run env (create_rds_cluster sdk cluster_node cluster_parameters)).1
create_rds_cluster-CreatesWithinLimits_example =
    create_rds_cluster-CreatesWithinLimits sdk env cluster_node cluster_parameters

create_db_instance-IsComplete_example :
    All (Creates IsComplete) (run env (create_db_instance sdk node provider.parameters)).1
create_db_instance-IsComplete_example =
    create_db_instance-IsComplete sdk (λ m k. refl) env node provider.parameters

delete_rds_cluster-DeletesByPolicy_example :
    All
      (DeletesByPolicy provider.reclaim_policy)
      (run env (delete_rds_cluster sdk cluster_node provider)).1
delete_rds_cluster-DeletesByPolicy_example =
    delete_rds_cluster-DeletesByPolicy sdk env cluster_node provider

create_aurora_cluster-CreatesClusterOf_example :
    All
      (CreatesClusterOf cluster_node)
      (run env (create_aurora_cluster sdk cluster_node cluster_parameters)).1
create_aurora_cluster-CreatesClusterOf_example =
    create_aurora_cluster-CreatesClusterOf sdk (λ m k. refl) env cluster_node cluster_parameters
