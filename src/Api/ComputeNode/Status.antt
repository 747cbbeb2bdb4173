-- ===== src/Api/ComputeNode/Status.antt =====
-- api/v1alpha1/compute_node_types.go: the status of a compute node, with its port bindings.
use shardingsphere_on_cloud.Prelude.{ℕ, String, List}
use shardingsphere_on_cloud.Go.Number.{ℤ}

abbrev pub pending_type : String
pending_type = "Pending"

abbrev pub deployed_type : String
deployed_type = "Deployed"

abbrev pub initialized_type : String
initialized_type = "Initialized"

abbrev pub started_type : String
started_type = "Started"

abbrev pub ready_type : String
ready_type = "Ready"

abbrev pub unknown_type : String
unknown_type = "Unknown"

abbrev pub failed_type : String
failed_type = "Failed"

-- `ComputeNodeCondition`
pub record ComputeNodeCondition : Type 0 where
  pub type : String
  pub status : String
  pub last_transition_time : ℕ
  pub last_update_time : ℕ
  pub reason : String
  pub message : String

-- `ComputeNodePhaseStatus`, by its constants
pub data ComputeNodePhase : Type 0 where
  compute_node_ready compute_node_not_ready compute_node_unknown : ComputeNodePhase

-- `LoadBalancerStatus`; an ingress is its serialised form, which the controller only copies.
pub record LoadBalancerStatus : Type 0 where
  pub cluster_ip : String
  pub ingress : List String

-- `PortBinding`. A node port of 0 is none.
pub record PortBinding : Type 0 where
  pub name : String
  pub container_port : ℕ
  pub protocol : String
  pub host_ip : String
  pub service_port : ℕ
  pub node_port : ℕ

-- `ComputeNodeStatus`
pub record ComputeNodeStatus : Type 0 where
  pub selector : String
  pub replicas : ℤ
  pub ready : String
  pub observed_generation : ℕ
  pub phase : ComputeNodePhase
  pub conditions : List ComputeNodeCondition
  pub load_balancer : LoadBalancerStatus
