-- ===== src/Controllers/StorageNode/Footprint/Deletion.antt =====
-- The requests of `deleteDatabaseCluster`: it describes databases, deletes them, and records events.
use shardingsphere_on_cloud.Prelude.{String, ◌≡◌, Bool, false, Option, none, some, arith}
use shardingsphere_on_cloud.Go.{wrap}
use shardingsphere_on_cloud.Sdk.{Sdk, DescInstance, DescCluster}
use shardingsphere_on_cloud.Api.StorageNode.{StorageNode}
use shardingsphere_on_cloud.Api.StorageProvider.{
  StorageProvider, Provisioner, ReclaimPolicy, aws_rds_instance, aws_rds_cluster, aws_aurora,
  delete,
}
use shardingsphere_on_cloud.Effects.{Prog, attempt}
use shardingsphere_on_cloud.Effects.Avoids.{
  Avoids, Avoids-attempt, Avoids-bind, Avoids-on_error, Avoids-if, avoid_rules,
}
use shardingsphere_on_cloud.Effects.Kinds.{Kind, of_kind, records, describes, deletes}
use shardingsphere_on_cloud.Aws.Identifier.{with_identifier-Avoids}
use shardingsphere_on_cloud.Aws.Instance.{
  get_db_instance, get_db_instances_by_filters, delete_db_instance, delete_described,
}
use shardingsphere_on_cloud.Aws.Cluster.{
  get_rds_cluster, delete_rds_cluster, delete_found, delete_with_policy,
}
use shardingsphere_on_cloud.Aws.Aurora.{get_aurora_cluster, delete_aurora_cluster}
use shardingsphere_on_cloud.Controllers.StorageNode.Database.{
  update_cluster_status, reporting, delete_instance_unless_deleting, delete_aws_rds_instance,
  delete_cluster_unless_deleting, delete_identified_cluster, delete_annotated_cluster,
  delete_aws_rds_cluster, delete_aws_aurora, delete_by_provisioner, delete_database_cluster,
}

module _ (s : Kind → Bool) (no_describes : s describes ≡ false) where
  pub get_db_instance-Avoids : (node : StorageNode) → Avoids (of_kind s) (get_db_instance node)
  unfolding get_db_instance
  get_db_instance-Avoids node = search (with_identifier-Avoids, avoid_rules)

  pub get_rds_cluster-Avoids : (node : StorageNode) → Avoids (of_kind s) (get_rds_cluster node)
  unfolding get_rds_cluster
  get_rds_cluster-Avoids node = search (with_identifier-Avoids, avoid_rules)

  pub get_aurora_cluster-Avoids :
      (node : StorageNode) → Avoids (of_kind s) (get_aurora_cluster node)
  unfolding get_aurora_cluster
  get_aurora_cluster-Avoids node = search (with_identifier-Avoids, avoid_rules)

  pub update_cluster_status-Avoids :
      (node : StorageNode) (c : Option DescCluster)
      → Avoids (of_kind s) (update_cluster_status node c)
  unfolding update_cluster_status get_db_instances_by_filters attempt
  update_cluster_status-Avoids node c = ground arith

  module _ (sdk : Sdk) (no_deletes : s deletes ≡ false) where
    delete_described-Avoids :
        (identifier : String) (reclaim : ReclaimPolicy) (i : Option DescInstance)
        → Avoids (of_kind s) (delete_described sdk identifier reclaim i)
    unfolding delete_described
    delete_described-Avoids identifier reclaim none = tt
    delete_described-Avoids identifier reclaim (some i) = search avoid_rules

    delete_db_instance-Avoids :
        (node : StorageNode) (provider : StorageProvider)
        → Avoids (of_kind s) (delete_db_instance sdk node provider)
    unfolding delete_db_instance
    delete_db_instance-Avoids node provider =
        search
          (with_identifier-Avoids, avoid_rules, get_db_instance-Avoids, delete_described-Avoids)

    delete_with_policy-Avoids :
        (node : StorageNode) (identifier : String) (reclaim : ReclaimPolicy) (c : DescCluster)
        → Avoids (of_kind s) (delete_with_policy sdk node identifier reclaim c)
    unfolding delete_with_policy
    delete_with_policy-Avoids node identifier delete c = ground arith
    delete_with_policy-Avoids node identifier _ c = ground arith

    delete_found-Avoids :
        (node : StorageNode) (identifier : String) (reclaim : ReclaimPolicy)
        (c : Option DescCluster)
        → Avoids (of_kind s) (delete_found sdk node identifier reclaim c)
    unfolding delete_found
    delete_found-Avoids node identifier reclaim none = tt
    delete_found-Avoids node identifier reclaim (some c) =
        search (avoid_rules, delete_with_policy-Avoids)

    delete_rds_cluster-Avoids :
        (node : StorageNode) (provider : StorageProvider)
        → Avoids (of_kind s) (delete_rds_cluster sdk node provider)
    unfolding delete_rds_cluster
    delete_rds_cluster-Avoids node provider =
        search (with_identifier-Avoids, avoid_rules, delete_found-Avoids)

    delete_aurora_cluster-Avoids :
        (node : StorageNode) (provider : StorageProvider)
        → Avoids (of_kind s) (delete_aurora_cluster node provider)
    unfolding delete_aurora_cluster
    delete_aurora_cluster-Avoids node provider = search (with_identifier-Avoids, avoid_rules)

    module _ (no_events : s records ≡ false) where
      reporting-Avoids :
          (m : Prog (Unit {0})) → Avoids (of_kind s) m → Avoids (of_kind s) (reporting sdk m)
      reporting-Avoids m a = search (Avoids-attempt, avoid_rules)

      delete_instance_unless-Avoids :
          (node : StorageNode) (provider : StorageProvider) (i : Option DescInstance)
          → Avoids (of_kind s) (delete_instance_unless_deleting sdk node provider i)
      unfolding delete_instance_unless_deleting
      delete_instance_unless-Avoids node provider none = tt
      delete_instance_unless-Avoids node provider (some i) =
          search (Avoids-if, reporting-Avoids, delete_db_instance-Avoids)

      delete_aws_rds_instance-Avoids :
          (node : StorageNode) (provider : StorageProvider)
          → Avoids (of_kind s) (delete_aws_rds_instance sdk node provider)
      unfolding delete_aws_rds_instance
      delete_aws_rds_instance-Avoids node provider =
          search (avoid_rules, get_db_instance-Avoids, delete_instance_unless-Avoids)

      module _ (message : String) (get_cluster : StorageNode → Prog (Option DescCluster))
          (remove : StorageNode → StorageProvider → Prog (Unit {0}))
          (get_cluster-Avoids : (n : StorageNode) → Avoids (of_kind s) (get_cluster n))
          (remove-Avoids : (n : StorageNode) (p : StorageProvider)
            → Avoids (of_kind s) (remove n p)) where
        delete_cluster_unless-Avoids :
            (node : StorageNode) (provider : StorageProvider) (c : Option DescCluster)
            → Avoids
                (of_kind s)
                (delete_cluster_unless_deleting sdk message get_cluster remove node provider c)
        unfolding delete_cluster_unless_deleting
        delete_cluster_unless-Avoids node provider none = tt
        delete_cluster_unless-Avoids node provider (some c) =
            search (Avoids-if, reporting-Avoids, remove-Avoids)

        delete_identified_cluster-Avoids :
            (node : StorageNode) (provider : StorageProvider)
            → Avoids
                (of_kind s)
                (delete_identified_cluster sdk message get_cluster remove node provider)
        unfolding delete_identified_cluster
        delete_identified_cluster-Avoids node provider =
            Avoids-bind (of_kind s) _ _
              (Avoids-on_error (of_kind s) (wrap message) _ (get_cluster-Avoids node))
              λ c.
                Avoids-bind (of_kind s) _ _ (delete_cluster_unless-Avoids node provider c)
                  λ _. Avoids-on_error (of_kind s) (wrap _) _ (update_cluster_status-Avoids node c)

        delete_annotated_cluster-Avoids :
            (node : StorageNode) (provider : StorageProvider)
            → Avoids
                (of_kind s)
                (delete_annotated_cluster sdk message get_cluster remove node provider)
        unfolding delete_annotated_cluster
        delete_annotated_cluster-Avoids node provider =
            search (Avoids-if, delete_identified_cluster-Avoids)

      delete_by_provisioner-Avoids :
          (p : Provisioner) (node : StorageNode) (provider : StorageProvider)
          → Avoids (of_kind s) (delete_by_provisioner sdk p node provider)
      unfolding delete_by_provisioner delete_aws_rds_cluster delete_aws_aurora
      delete_by_provisioner-Avoids aws_rds_instance node provider =
          search (avoid_rules, delete_aws_rds_instance-Avoids)
      delete_by_provisioner-Avoids aws_rds_cluster node provider = Avoids-on_error (of_kind s) _ _ (
          delete_annotated_cluster-Avoids _ get_rds_cluster (delete_rds_cluster sdk)
            get_rds_cluster-Avoids delete_rds_cluster-Avoids node provider)
      delete_by_provisioner-Avoids aws_aurora node provider = Avoids-on_error (of_kind s) _ _ (
          delete_annotated_cluster-Avoids _ get_aurora_cluster delete_aurora_cluster
            get_aurora_cluster-Avoids delete_aurora_cluster-Avoids node provider)
      delete_by_provisioner-Avoids _ node provider = tt

      pub delete_database_cluster-Avoids :
          (node : StorageNode) (provider : StorageProvider)
          → Avoids (of_kind s) (delete_database_cluster sdk node provider)
      unfolding delete_database_cluster
      delete_database_cluster-Avoids node provider =
          delete_by_provisioner-Avoids provider.provisioner node provider
