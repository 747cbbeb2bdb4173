-- ===== src/Examples/Compute.antt =====
-- A compute node and its objects.
use shardingsphere_on_cloud.Prelude.{true, some, List, [], ◌∷◌}
use shardingsphere_on_cloud.Sdk.{
  Pod, pod_running, pod_ready, ServicePort, ServiceObject, DeploymentObject, ConfigMapObject,
}
use shardingsphere_on_cloud.Go.Number.{pos}
use shardingsphere_on_cloud.Api.ComputeNode.{ComputeNode, node_port_service}
use shardingsphere_on_cloud.Api.ComputeNode.Status.{
  PortBinding, ComputeNodeStatus, compute_node_not_ready,
}

abbrev pub pod : Pod
pod = record {
  phase = pod_running;
  conditions = record { type = pod_ready; is_true = true } ∷ [];
  container_statuses = record { name = "shardingsphere-proxy"; ready = true } ∷ [];
}

abbrev pub bindings : List PortBinding
bindings =
    record {
      name = "proxy";
      container_port = 3307;
      protocol = "TCP";
      host_ip = "";
      service_port = 3307;
      node_port = 30007;
    }
    ∷ []

abbrev pub service_ports : List ServicePort
service_ports =
    record { name = "proxy"; protocol = "TCP"; port = 3307; target_port = 3307; node_port = 30008 }
    ∷ []

abbrev pub compute_status : ComputeNodeStatus
compute_status = record {
  selector = "";
  replicas = pos 0;
  ready = "";
  observed_generation = 0;
  phase = compute_node_not_ready;
  conditions = [];
  load_balancer = record { cluster_ip = ""; ingress = [] };
}

abbrev pub compute_node : ComputeNode
compute_node = record {
  name = "proxy";
  namespace = "default";
  match_labels = [];
  port_bindings = some bindings;
  service_type = node_port_service;
  server_config = record { users = record { user = "root@%"; password = "root" } ∷ []; props = [] };
  status = compute_status;
}

abbrev pub service : ServiceObject
service = record {
  name = "proxy";
  namespace = "default";
  object_meta = "";
  spec = record { ports = service_ports; cluster_ip = "10.0.0.1"; cluster_ips = []; rest = "" };
  ingress = [];
}

abbrev pub deployment : DeploymentObject
deployment = record { object_meta = ""; labels = []; annotations = []; spec = "" }

abbrev pub config_map : ConfigMapObject
config_map = record { object_meta = ""; labels = []; annotations = []; data_text = "" }
