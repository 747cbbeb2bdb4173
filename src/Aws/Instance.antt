-- ===== src/Aws/Instance.antt =====
-- pkg/reconcile/storagenode/aws/rdsinstance.go. The parameters are a map that the caller shares,
-- and the checks write to it and to the node's annotations: both are returned.
pub mod Filling
pub mod Checks
pub mod Validity
use Prim.Native.String.{len}
use shardingsphere_on_cloud.Prelude.{
  ℕ, ◌+◌, String, Bool, true, false, Option, none, some, List, [], ◌∷◌, ◌==◌, ◌||◌, ltb,
  if◌then◌else◌,
}
use shardingsphere_on_cloud.Go.{Result, ok, err, text, cite}
use shardingsphere_on_cloud.Go.Map.{GoMap, find, get, put}
use shardingsphere_on_cloud.Go.Number.{ℤ, parse_int, int32}
use shardingsphere_on_cloud.Api.StorageNode.{StorageNode}
use shardingsphere_on_cloud.Api.StorageProvider.{
  StorageProvider, ReclaimPolicy, delete_with_final_snapshot, delete, retain, other_policy,
  annotations_instance_identifier, annotations_instance_db_name, annotations_master_user_password,
}
use shardingsphere_on_cloud.Sdk.{Sdk, DescInstance}
use shardingsphere_on_cloud.Effects.{
  InstanceParams, Prog, done, pure, fail, call, attempt, ◌>>=◌, ◌>>◌, create_instance,
  delete_instance, describe_instance, describe_instances, rand_int, random_string, random_custom,
}
use shardingsphere_on_cloud.Aws.Identifier.{with_identifier}
use shardingsphere_on_cloud.Aws.Username.{validate_username}

abbrev pub required_instance_params : GoMap
required_instance_params =
    ("engine", "engine is empty")
    ∷ ("engineVersion", "engine version is empty")
    ∷ ("instanceClass", "instance class is empty")
    ∷ ("masterUsername", "master username is empty")
    ∷ ("masterUserPassword", "master user password is empty")
    ∷ ("allocatedStorage", "allocated storage is empty")
    ∷ []

abbrev password_chars : String
password_chars =
    "ABCDEFGHIJKLMNOPQRSTUVWXYZabcdefghijklmnopqrstuvwxyz0123456789!#$%^&*()_+-={}[]:;?"

-- `rand.Int(rand.Reader, big.NewInt(n))`, whose failure gives the empty text
abbrev with_random : ℕ → (ℕ → Prog String) → Prog String
with_random n k = attempt (call (rand_int n)) (λ _. pure "") k

unfoldable pub generate : String → Prog String
generate gentype =
    if gentype == "masterUsername"
    then with_random 16 (λ n. call (random_string (n + 1)))
    else if gentype == "masterUserPassword"
    then with_random 34 (λ n. call (random_custom (n + 8) password_chars))
    else pure ""

-- `val, ok := params[k]; !ok || val == ""`
abbrev pub is_missing : String → GoMap → Bool
is_missing k params = get k params == ""

abbrev pub is_generated : String → Bool
is_generated k = (k == "masterUserPassword") || (k == "masterUsername")

-- The loop over the required parameters, in the order in which it visits them.
unfoldable pub fill_required : GoMap → GoMap → Prog GoMap
fill_required [] params = pure params
fill_required ((k, v) ∷ rest) params =
    let absent = (do value ← generate k; fill_required rest (put k value params)) in
    let present = fill_required rest params in
    if is_missing k params then (if is_generated k then absent else fail (text v)) else present

-- `if username, ok := params["masterUsername"]; ok { … }`
unfoldable pub check_username : Option String → GoMap → Result GoMap
check_username none params = ok params
check_username (some username) params = elim (validate_username username) [
  | ok valid ↦ ok (put "masterUsername" valid params)
  | err e ↦ err e
]

unfoldable pub check_password : StorageNode → GoMap → Result (StorageNode × GoMap)
check_password node params =
    let lp = len (get "masterUserPassword" params) in
    if ltb lp 8 || ltb 41 lp
    then err (text "master user password length should be greater than 8")
    else ok (
      record node {
        annotations =
            put annotations_master_user_password (get "masterUserPassword" params) node.annotations;
      },
      params,
    )

abbrev instance_of : StorageNode → GoMap → ℤ → InstanceParams
instance_of node params storage = record {
  engine = get "engine" params;
  engine_version = get "engineVersion" params;
  db_instance_class = get "instanceClass" params;
  db_instance_identifier = get annotations_instance_identifier node.annotations;
  master_username = get "masterUsername" params;
  master_user_password = get "masterUserPassword" params;
  allocated_storage = int32 storage;
  db_name = find (get annotations_instance_db_name node.annotations) params;
}

unfoldable pub create_parsed : StorageNode × GoMap → Option ℤ → Prog (StorageNode × GoMap)
create_parsed (node, params) none =
    fail (cite "allocated storage is not a number: " (text "strconv.ParseInt"))
create_parsed (node, params) (some storage) = do
  call (create_instance (instance_of node params storage))
  pure (node, params)

-- `GetInstance`
unfoldable pub get_db_instance : StorageNode → Prog (Option DescInstance)
get_db_instance node =
    with_identifier "instance identifier is empty"
      (find annotations_instance_identifier node.annotations)
      (λ identifier. call (describe_instance identifier))

-- `GetInstanceByIdentifier`
unfoldable pub get_db_instance_by_identifier : String → Prog (Option DescInstance)
get_db_instance_by_identifier identifier = call (describe_instance identifier)

-- `GetInstancesByFilters`
unfoldable pub get_db_instances_by_filters : List (String × List String) → Prog (List DescInstance)
get_db_instances_by_filters filters = call (describe_instances filters)

-- The `switch` on the reclaim policy: delete the automated backups, skip the final snapshot.
abbrev pub instance_policy : ReclaimPolicy → Bool × Bool
instance_policy delete_with_final_snapshot = (true, false)
instance_policy delete = (true, true)
instance_policy retain = (false, true)
instance_policy other_policy = (false, false)

module _ (sdk : Sdk) where
  unfoldable pub valid_create_instance_params : StorageNode → GoMap → Prog (StorageNode × GoMap)
  valid_create_instance_params node params = do
    filled ← fill_required (sdk.visit required_instance_params) params
    named ← done (check_username (find "masterUsername" filled) filled)
    if get annotations_instance_identifier node.annotations == ""
        then fail (text "instance identifier is empty")
        else done (check_password node named)

  -- `CreateInstance`
  unfoldable pub create_db_instance : StorageNode → GoMap → Prog (StorageNode × GoMap)
  create_db_instance node params = do
    valid ← valid_create_instance_params node params
    create_parsed valid (parse_int (get "allocatedStorage" valid.1))

  unfoldable pub delete_described : String → ReclaimPolicy → Option DescInstance → Prog (Unit {0})
  delete_described identifier reclaim none = pure tt
  delete_described identifier reclaim (some ins) =
      if ins.status == sdk.db_instance_status_deleting
      then pure tt
      else call (delete_instance identifier (instance_policy reclaim).0 (instance_policy reclaim).1)

  -- `DeleteInstance`
  unfoldable pub delete_db_instance : StorageNode → StorageProvider → Prog (Unit {0})
  delete_db_instance node provider =
      with_identifier "instance identifier is empty"
        (find annotations_instance_identifier node.annotations)
        (λ identifier. do
          ins ← get_db_instance node
          delete_described identifier provider.reclaim_policy ins)
