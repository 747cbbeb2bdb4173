-- ===== src/Api/StorageNode.antt =====
-- api/v1alpha1/storage_node_types.go: the StorageNode resource, its status and the three methods
-- of its condition list. Numbers are int32 values that the code only copies.
pub mod Conditions
use shardingsphere_on_cloud.Prelude.{
  ℕ, String, Bool, true, false, List, [], ◌∷◌, ◌++◌, ◌==◌, not, if◌then◌else◌,
}
use shardingsphere_on_cloud.Go.Map.{GoMap}

-- `StorageNodePhaseStatus`, a string: its four constants, and any other text, "" before the first
-- reconciliation.
pub data Phase : Type 0 where
  ready not_ready deleting delete_complete : Phase
  other : String → Phase

abbrev pub is_ready : Phase → Bool
is_ready ready = true
is_ready _ = false

abbrev pub is_deleting : Phase → Bool
is_deleting deleting = true
is_deleting _ = false

pub data ConditionStatus : Type 0 where
  condition_true condition_false condition_unknown : ConditionStatus

-- The three `StorageNodeConditionType` constants.
abbrev pub available_type : String
available_type = "Available"

abbrev pub cluster_ready_type : String
cluster_ready_type = "ClusterReady"

abbrev pub registered_type : String
registered_type = "Registered"

pub record Condition : Type 0 where
  pub type : String
  pub status : ConditionStatus
  pub last_update_time : ℕ
  pub reason : String
  pub message : String

pub record Endpoint : Type 0 where
  pub address : String
  pub port : ℕ

pub record ClusterStatus : Type 0 where
  pub status : String
  pub primary_endpoint : Endpoint
  pub reader_endpoints : List Endpoint
  pub properties : GoMap

pub record InstanceStatus : Type 0 where
  pub status : String
  pub endpoint : Endpoint
  pub properties : GoMap

pub record StorageNodeStatus : Type 0 where
  pub observed_generation : ℕ
  pub phase : Phase
  pub conditions : List Condition
  pub cluster : ClusterStatus
  pub instances : List InstanceStatus
  pub registered : Bool

pub record StorageNodeSpec : Type 0 where
  pub storage_provider_name : String
  pub schema : String
  pub replicas : ℕ

-- Of `ObjectMeta`, what the operator reads and writes.
pub record StorageNode : Type 0 where
  pub name : String
  pub namespace : String
  pub annotations : GoMap
  pub finalizers : List String
  pub deletion_timestamp_is_zero : Bool
  pub spec : StorageNodeSpec
  pub status : StorageNodeStatus

-- `AddCondition`
unfoldable pub add_condition : List Condition → Condition → List Condition
add_condition cs c = cs ++ c ∷ []

-- `UpsertCondition`: the first condition of the type is replaced, or the new one is added at the
-- end.
unfoldable pub upsert_condition : List Condition → Condition → List Condition
upsert_condition [] c = c ∷ []
upsert_condition (x ∷ cs) c = if x.type == c.type then c ∷ cs else x ∷ upsert_condition cs c

-- `RemoveCondition`: every condition of the type goes.
unfoldable pub remove_condition : List Condition → String → List Condition
remove_condition [] t = []
remove_condition (x ∷ cs) t =
    let rest = remove_condition cs t in if not (x.type == t) then x ∷ rest else rest
