-- ===== src/Aws/Cluster/Bounds.antt =====
-- What `CreateRDSCluster` asks of AWS is within the documented limits.
use Prim.Native.String.{len}
use shardingsphere_on_cloud.Prelude.{
  ℕ, ◌*◌, ◌%◌, ◌^◌, ◌≤◌, String, ◌≡◌, ◌≢◌, false, Option, none, some, arith, ◌||◌, eq_iff, All, ltb,
}
use shardingsphere_on_cloud.Go.{ok}
use shardingsphere_on_cloud.Go.Map.{GoMap, get, get-put}
use shardingsphere_on_cloud.Go.Number.{ℤ, pos, negsuc, parse_int, int32}
use shardingsphere_on_cloud.Api.StorageNode.{StorageNode}
use shardingsphere_on_cloud.Api.StorageProvider.{annotations_cluster_identifier}
use shardingsphere_on_cloud.Sdk.{Sdk}
use shardingsphere_on_cloud.Effects.{ClusterParams, Request, call, create_cluster}
use shardingsphere_on_cloud.Effects.Run.{Env, run}
use shardingsphere_on_cloud.Effects.Only.{
  Only, Only-attempt, Only-done, Only-if, Only-run, Only-Yields, Yields, Yields-done,
}
use shardingsphere_on_cloud.Aws.Cluster.{
  put_identifier, check_engine, check_required, get_allocated_storage, get_iops, cluster_of,
  validate_create_rds_cluster_params, create_rds_cluster, bounded, required_cluster_params,
}

-- The limits on a cluster: its storage and its IOPS, which are no wrapped numbers, their ratio, its
-- identifier and the type of its storage.
abbrev pub IsWithinLimits : ClusterParams → Type 0
IsWithinLimits p =
    ((storage iops : ℕ) × (p.allocated_storage ≡ pos storage)
      × (p.iops ≡ pos iops)
      × (100 ≤ storage)
      × (storage ≤ 65536)
      × (1000 ≤ iops)
      × (iops ≤ 256000)
      × (iops ≤ storage * 50)
      × (storage ≤ iops * 2))
    × (p.db_cluster_identifier ≢ "")
    × (len p.db_cluster_identifier ≤ 50)
    × (p.storage_type ≡ "io1")

abbrev pub CreatesWithinLimits : Request → Type 0
CreatesWithinLimits (create_cluster p) = IsWithinLimits p
CreatesWithinLimits _ = Unit

int32_small : (n : ℕ) → n ≤ 256000 → int32 (pos n) ≡ pos n
unfolding int32
int32_small n h = ground (arith, id)
  where
    id : n % 2 ^ 32 ≡ n
    id = omega (arith, h)

bounded-between :
    (bad range : String) (lo hi n : ℕ) (o : Option ℤ)
    → bounded bad range lo hi o ≡ ok n
    → (lo ≤ n) × (n ≤ hi)
bounded-between bad range lo hi n none h = ground arith
bounded-between bad range lo hi n (some (pos m)) h = ground arith
bounded-between bad range lo hi n (some (negsuc m)) h = ground arith

put_identifier-get :
    (node : StorageNode) (params valid : GoMap)
    → put_identifier node params ≡ ok valid
    → (get "clusterIdentifier" valid ≢ "") × (len (get "clusterIdentifier" valid) ≤ 50)
unfolding put_identifier
put_identifier-get node params valid h =
    let v = get annotations_cluster_identifier node.annotations in
    ground (arith, eq_iff v "", get-put "clusterIdentifier" "clusterIdentifier" v params)

check_engine-storage_type :
    (params : GoMap) → check_engine params ≡ ok tt → get "storageType" params ≡ "io1"
unfolding check_engine
check_engine-storage_type params h = ground (arith, eq_iff (get "storageType" params) "io1")

get_allocated_storage-between :
    (s : String) (n : ℕ) → get_allocated_storage s ≡ ok n → (100 ≤ n) × (n ≤ 65536)
unfolding get_allocated_storage
get_allocated_storage-between s n h = bounded-between _ _ 100 65536 n (parse_int s) h

get_iops-between : (s : String) (n : ℕ) → get_iops s ≡ ok n → (1000 ≤ n) × (n ≤ 256000)
unfolding get_iops
get_iops-between s n h = bounded-between _ _ 1000 256000 n (parse_int s) h

-- The parameters that passed the validation.
abbrev IsValid : GoMap → Type 0
IsValid m =
    (get "clusterIdentifier" m ≢ "")
    × (len (get "clusterIdentifier" m) ≤ 50)
    × (get "storageType" m ≡ "io1")

cluster_of-IsWithinLimits :
    (node : StorageNode) (valid : GoMap) (storage iops : ℕ)
    → IsValid valid
    → (100 ≤ storage) × (storage ≤ 65536)
    → (1000 ≤ iops) × (iops ≤ 256000)
    → (ltb (storage * 50) iops || ltb (iops * 2) storage) ≡ false
    → IsWithinLimits (cluster_of node valid storage iops)
unfolding cluster_of
cluster_of-IsWithinLimits node valid storage iops v s i r = (
  (
    storage,
    iops,
    int32_small storage (omega (arith, s)),
    int32_small iops i.1,
    s.0,
    s.1,
    i.0,
    i.1,
    ground arith,
    ground arith,
  ),
  v.0,
  v.1,
  v.2,
)

module _ (sdk : Sdk) where
  validate-Yields :
      (node : StorageNode) (params : GoMap)
      → Yields CreatesWithinLimits IsValid (validate_create_rds_cluster_params sdk node params)
  unfolding validate_create_rds_cluster_params
  validate-Yields node params =
      Yields-done CreatesWithinLimits IsValid (put_identifier node params) _ λ named p.
        Yields-done CreatesWithinLimits IsValid
          (check_required (sdk.visit required_cluster_params) named) _
          λ _ _. Yields-done CreatesWithinLimits IsValid (check_engine named) _ λ _ e.
            let (filled, short) = put_identifier-get node params named p in
            (filled, short, check_engine-storage_type named e)

  create_rds_cluster-Only :
      (node : StorageNode) (params : GoMap)
      → Only CreatesWithinLimits (create_rds_cluster sdk node params)
  unfolding create_rds_cluster
  create_rds_cluster-Only node params =
      Only-Yields CreatesWithinLimits IsValid _ _ (validate-Yields node params) λ valid v.
        Only-done CreatesWithinLimits (get_allocated_storage (get "allocatedStorage" valid)) _
          λ storage s. Only-done CreatesWithinLimits (get_iops (get "iops" valid)) _ λ iops i.
            Only-if CreatesWithinLimits (ltb (storage * 50) iops || ltb (iops * 2) storage) _ _ tt
              λ r.
                Only-attempt CreatesWithinLimits _ _ _
                  (Only-attempt CreatesWithinLimits
                    (call (create_cluster (cluster_of node valid storage iops))) _ _
                    (
                      cluster_of-IsWithinLimits node valid storage iops v
                          (get_allocated_storage-between _ storage s) (get_iops-between _ iops i) r,
                      λ _. tt,
                    )
                    (λ _. tt) (λ _. tt))
                  (λ _. tt) (λ _. tt)

  -- In every run of `create_rds_cluster`, whatever the parameters and the answers, a request to
  -- create a cluster has between 100 and 65536 GiB and between 1000 and 256000 IOPS, in a ratio
  -- between 0.5 and 50 and not wrapped by the conversion to int32, an identifier of 1 to 50 bytes,
  -- and the storage type "io1".
  pub create_rds_cluster-CreatesWithinLimits :
      (env : Env) (node : StorageNode) (params : GoMap)
      → All CreatesWithinLimits (run env (create_rds_cluster sdk node params)).1
  create_rds_cluster-CreatesWithinLimits env node params =
      Only-run CreatesWithinLimits env _ (create_rds_cluster-Only node params)
