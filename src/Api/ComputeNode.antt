-- ===== src/Api/ComputeNode.antt =====
-- api/v1alpha1/compute_node_types.go: what the operator reads of a compute node.
pub mod Status
use shardingsphere_on_cloud.Prelude.{String, Option, List}
use shardingsphere_on_cloud.Go.Map.{GoMap}
use shardingsphere_on_cloud.Api.ComputeNode.Status.{PortBinding, ComputeNodeStatus}

pub record ComputeNodeUser : Type 0 where
  pub user : String
  pub password : String

-- `Spec.Bootstrap.ServerConfig`, its users and its properties.
pub record ServerConfig : Type 0 where
  pub users : List ComputeNodeUser
  pub props : GoMap

-- `corev1.ServiceType`, by its constants; `other_service` is any other text.
pub data ServiceType : Type 0 where
  cluster_ip_service external_name load_balancer_service node_port_service : ServiceType
  other_service : ServiceType

-- The port bindings are a slice, which may be nil: `none`.
pub record ComputeNode : Type 0 where
  pub name : String
  pub namespace : String
  pub match_labels : GoMap
  pub port_bindings : Option (List PortBinding)
  pub service_type : ServiceType
  pub server_config : ServerConfig
  pub status : ComputeNodeStatus
