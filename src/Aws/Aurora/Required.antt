-- ===== src/Aws/Aurora/Required.antt =====
-- What `CreateAuroraCluster` asks of AWS.
use Prim.Native.String.{len}
use shardingsphere_on_cloud.Prelude.{
  ◌≤◌, String, ◌≡◌, ◌≢◌, refl, sym, subst, some, none, arith, Bool-cases, inl, inr, if◌then◌else◌,
  ◌==◌, eq_iff, All, [], ◌∷◌,
}
use shardingsphere_on_cloud.Go.{ok}
use shardingsphere_on_cloud.Go.Map.{GoMap, find, get, get-put}
use shardingsphere_on_cloud.Api.StorageNode.{StorageNode}
use shardingsphere_on_cloud.Api.StorageProvider.{annotations_cluster_identifier}
use shardingsphere_on_cloud.Sdk.{Sdk}
use shardingsphere_on_cloud.Effects.{AuroraParams, Request, call, create_aurora}
use shardingsphere_on_cloud.Effects.Run.{Env, run}
use shardingsphere_on_cloud.Effects.Only.{Only-attempt, Only-run, Only-Yields, Yields, Yields-done}
use shardingsphere_on_cloud.Aws.Cluster.{put_identifier, check_required}
use shardingsphere_on_cloud.Aws.Instance.Validity.{VisitsAll}
use shardingsphere_on_cloud.Aws.Aurora.{
  required_aurora_params, aurora_of, validate_create_aurora_params, create_aurora_cluster,
}

-- A cluster of the node: all that AWS requires is given, it is named by the node's annotation, in 1
-- to 50 bytes, and it has as many instances as the node has replicas.
abbrev pub IsClusterOf : StorageNode → AuroraParams → Type 0
IsClusterOf node p =
    (p.db_instance_class ≢ "")
    × (p.engine ≢ "")
    × (p.engine_version ≢ "")
    × (p.master_username ≢ "")
    × (p.master_user_password ≢ "")
    × (p.db_cluster_identifier ≡ get annotations_cluster_identifier node.annotations)
    × (p.db_cluster_identifier ≢ "")
    × (len p.db_cluster_identifier ≤ 50)
    × (p.instance_number ≡ node.spec.replicas)

abbrev pub CreatesClusterOf : StorageNode → Request → Type 0
CreatesClusterOf node (create_aurora p) = IsClusterOf node p
CreatesClusterOf node _ = Unit

check_required-given :
    (req params : GoMap) (k : String)
    → check_required req params ≡ ok tt
    → find k req ≢ none
    → get k params ≢ ""
unfolding check_required find
check_required-given [] params k h f = absurd (f refl)
check_required-given ((j, v) ∷ rest) params k h f = elim (Bool-cases (j == k)) [
  | inl same ↦ λ empty. ground (arith, eq_iff (get j params) "", eq_iff j k)
  | inr other ↦
      check_required-given rest params k (ground arith)
        (subst (λ b. (if b then some v else find k rest) ≢ none) other f)
]

-- The parameters that passed the validation.
abbrev IsValid : StorageNode → GoMap → Type 0
IsValid node m =
    ((k : String) → find k required_aurora_params ≢ none → get k m ≢ "")
    × (get "clusterIdentifier" m ≡ get annotations_cluster_identifier node.annotations)
    × (len (get "clusterIdentifier" m) ≤ 50)

put_identifier-named :
    (node : StorageNode) (params named : GoMap)
    → put_identifier node params ≡ ok named
    → (get "clusterIdentifier" named ≡ get annotations_cluster_identifier node.annotations)
      × (len (get "clusterIdentifier" named) ≤ 50)
unfolding put_identifier
put_identifier-named node params named h =
    let v = get annotations_cluster_identifier node.annotations in
    ground (arith, eq_iff v "", get-put "clusterIdentifier" "clusterIdentifier" v params)

aurora_of-IsClusterOf :
    (node : StorageNode) (m : GoMap) → IsValid node m → IsClusterOf node (aurora_of node m)
unfolding aurora_of find
aurora_of-IsClusterOf node m (given, named, short) = (
  given "instanceClass" (λ e. cc),
  given "engine" (λ e. cc),
  given "engineVersion" (λ e. cc),
  given "masterUsername" (λ e. cc),
  given "masterUserPassword" (λ e. cc),
  named,
  given "clusterIdentifier" (λ e. cc),
  short,
  refl,
)

module _ (sdk : Sdk) (visits : VisitsAll sdk) where
  validate-Yields :
      (node : StorageNode) (params : GoMap)
      → Yields
          (CreatesClusterOf node)
          (IsValid node)
          (validate_create_aurora_params sdk node params)
  unfolding validate_create_aurora_params
  validate-Yields node params =
      Yields-done (CreatesClusterOf node) (IsValid node) (put_identifier node params) _ λ named p.
        Yields-done (CreatesClusterOf node) (IsValid node)
          (check_required (sdk.visit required_aurora_params) named) _
          λ _ c.
            let (is_named, short) = put_identifier-named node params named p in
            (
              λ k r.
                  check_required-given (sdk.visit required_aurora_params) named k c
                    (subst (λ o. o ≢ none) (sym (visits required_aurora_params k)) r),
              is_named,
              short,
            )

  -- If `range` visits each key of a map, then in every run of `create_aurora_cluster`, whatever the
  -- parameters, the order of the visits and the answers, a request to create a cluster has a class,
  -- an engine, its version, a user name and a password, is named by the node's annotation, in 1 to
  -- 50 bytes, and asks for as many instances as the node has replicas.
  pub create_aurora_cluster-CreatesClusterOf :
      (env : Env) (node : StorageNode) (params : GoMap)
      → All (CreatesClusterOf node) (run env (create_aurora_cluster sdk node params)).1
  unfolding create_aurora_cluster
  create_aurora_cluster-CreatesClusterOf env node params = Only-run (CreatesClusterOf node) env _ (
      Only-Yields (CreatesClusterOf node) (IsValid node) _ _ (validate-Yields node params)
        λ valid v.
          Only-attempt (CreatesClusterOf node) _ _ _
            (Only-attempt (CreatesClusterOf node) (call (create_aurora (aurora_of node valid))) _ _
              (aurora_of-IsClusterOf node valid v, λ _. tt) (λ _. tt) (λ _. tt))
            (λ _. tt) (λ _. tt))
