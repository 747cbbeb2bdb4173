-- ===== src/Aws/Cluster/Deletion.antt =====
-- What `DeleteRDSCluster` asks of AWS under each reclaim policy.
use shardingsphere_on_cloud.Prelude.{
  String, ◌≡◌, ◌≢◌, refl, Bool, true, false, Option, none, some, ◌==◌, eq_iff, not, if◌then◌else◌,
  All,
}
use shardingsphere_on_cloud.Go.{err, cite, text}
use shardingsphere_on_cloud.Go.Map.{find, get}
use shardingsphere_on_cloud.Api.StorageNode.{StorageNode}
use shardingsphere_on_cloud.Api.StorageProvider.{
  StorageProvider, ReclaimPolicy, delete, delete_with_final_snapshot, retain, other_policy,
  annotations_cluster_identifier, annotations_final_snapshot_identifier,
}
use shardingsphere_on_cloud.Sdk.{Sdk, DescCluster}
use shardingsphere_on_cloud.Effects.{
  Request, done, fail, call, attempt, on_error, delete_cluster, describe_cluster,
}
use shardingsphere_on_cloud.Effects.Run.{Env, run}
use shardingsphere_on_cloud.Effects.Only.{Only, Only-attempt, Only-if, Only-run}
use shardingsphere_on_cloud.Aws.Identifier.{with_identifier}
use shardingsphere_on_cloud.Aws.Cluster.{delete_with_policy, delete_found, delete_rds_cluster}

-- The final snapshot and the flag that skips it, as the policy demands: under `Retain` no request
-- is right.
abbrev pub IsByPolicy : ReclaimPolicy → Option String → Option Bool → Type 0
IsByPolicy delete snapshot skip = (snapshot ≡ none) × (skip ≡ some true)
IsByPolicy delete_with_final_snapshot snapshot skip =
    ((name : String) × (snapshot ≡ some name) × (name ≢ "")) × (skip ≡ some false)
IsByPolicy retain snapshot skip = ⊥
IsByPolicy other_policy snapshot skip = (snapshot ≡ none) × (skip ≡ none)

abbrev pub DeletesByPolicy : ReclaimPolicy → Request → Type 0
DeletesByPolicy p (delete_cluster id snapshot skip) = IsByPolicy p snapshot skip
DeletesByPolicy p _ = Unit

module _ (sdk : Sdk) where
  delete_with_policy-Only :
      (node : StorageNode) (id : String) (p : ReclaimPolicy) (c : DescCluster)
      → Only (DeletesByPolicy p) (delete_with_policy sdk node id p c)
  unfolding delete_with_policy
  delete_with_policy-Only node id delete c = ((refl, refl), λ _. tt)
  delete_with_policy-Only node id delete_with_final_snapshot c =
      named (get annotations_final_snapshot_identifier node.annotations)
        (c.status == sdk.db_cluster_status_available)
    where
      named :
          (snapshot : String) (available : Bool)
          → Only (DeletesByPolicy delete_with_final_snapshot) (
              if snapshot == ""
              then fail (text "final snapshot identifier is empty")
              else if not available
              then fail (text "rds cluster is not available, can not delete with final snapshot")
              else call (delete_cluster id (some snapshot) (some false)))
      named snapshot true =
          Only-if (DeletesByPolicy delete_with_final_snapshot) (snapshot == "") _
            (call (delete_cluster id (some snapshot) (some false))) tt
            λ e. (((snapshot, refl, λ p. cc (e, (eq_iff snapshot "").1 p)), refl), λ _. tt)
      named snapshot false =
          Only-if (DeletesByPolicy delete_with_final_snapshot) (snapshot == "") _
            (fail (text "rds cluster is not available, can not delete with final snapshot")) tt
            (λ _. tt)
  delete_with_policy-Only node id retain c = tt
  delete_with_policy-Only node id other_policy c = ((refl, refl), λ _. tt)

  delete_found-Only :
      (node : StorageNode) (id : String) (p : ReclaimPolicy) (o : Option DescCluster)
      → Only (DeletesByPolicy p) (delete_found sdk node id p o)
  unfolding delete_found
  delete_found-Only node id p none = tt
  delete_found-Only node id p (some c) =
      Only-if (DeletesByPolicy p) (c.status == sdk.db_cluster_status_deleting) _ _ tt
        λ _. delete_with_policy-Only node id p c

  delete_identified-Only :
      (node : StorageNode) (p : ReclaimPolicy) (o : Option String)
      → Only (DeletesByPolicy p) (
          with_identifier "cluster identifier is empty" o (λ id.
            attempt
              (on_error (cite "describe rds cluster failed, ") (call (describe_cluster id)))
              (λ x. done (err x))
              (λ c. delete_found sdk node id p c)))
  unfolding with_identifier
  delete_identified-Only node p none = tt
  delete_identified-Only node p (some id) =
      Only-attempt (DeletesByPolicy p) _ _ _
        (Only-attempt (DeletesByPolicy p) (call (describe_cluster id)) _ _ (tt, λ _. tt) (λ _. tt)
          (λ _. tt))
        (λ _. tt) (λ c. delete_found-Only node id p c)

  -- In every run of `delete_rds_cluster`, whatever the answers, a request to delete the cluster
  -- keeps to the reclaim policy: with `Delete` it skips the final snapshot, with
  -- `DeleteWithFinalSnapshot` it names one and does not skip it, and with `Retain` there is none.
  pub delete_rds_cluster-DeletesByPolicy :
      (env : Env) (node : StorageNode) (provider : StorageProvider)
      → All
          (DeletesByPolicy provider.reclaim_policy)
          (run env (delete_rds_cluster sdk node provider)).1
  unfolding delete_rds_cluster
  delete_rds_cluster-DeletesByPolicy env node provider =
      Only-run (DeletesByPolicy provider.reclaim_policy) env _ (
        delete_identified-Only node provider.reclaim_policy
          (find annotations_cluster_identifier node.annotations))
