-- ===== src/Controllers/ComputeNode/Workload.antt =====
-- The objects of a compute node: `reconcileDeployment`, `reconcileService` and
-- `reconcileConfigMap` of pkg/controllers/compute_node_controller.go. A function returns the error
-- that the caller collects; `reconcileService`, which writes to the port bindings, also returns the
-- node.
pub mod Unchanged
use shardingsphere_on_cloud.Prelude.{
  ℕ, String, Bool, true, false, Option, none, some, List, [], ◌∷◌, ◌==◌, not, if◌then◌else◌,
  String-discrete,
}
use mathlib.Core.Bool.{decide}
use native.Mathlib.Decide.{ℕ_discrete}
use shardingsphere_on_cloud.Go.{Error}
use shardingsphere_on_cloud.Go.Map.{GoMap}
use shardingsphere_on_cloud.Sdk.{
  Sdk, ServiceObject, ServiceSpec, ServicePort, DeploymentObject, ConfigMapObject,
}
use shardingsphere_on_cloud.Api.ComputeNode.{
  ComputeNode, ServiceType, cluster_ip_service, external_name, load_balancer_service,
  node_port_service, other_service,
}
use shardingsphere_on_cloud.Api.ComputeNode.Status.{PortBinding}
use shardingsphere_on_cloud.Effects.{
  Request, Response, Prog, attempt, pure, fail, call, ◌>>=◌, ◌>>◌, get_compute_node, get_deployment,
  get_config_map, get_service, create_deployment, update_deployment, create_service, update_service,
  create_config_map, update_config_map, update_compute_node,
}
use shardingsphere_on_cloud.Controllers.ComputeNode.Ports.{
  update_service_node_port, update_service_cluster_ip, update_node_ports,
}

pub ServiceSpec-discrete : Discrete ServiceSpec
ServiceSpec-discrete = hlevel (ℕ_discrete, String-discrete)

-- `reflect.DeepEqual(cn.Spec.PortBindings, pbs)` with `pbs` the empty slice that is not nil.
abbrev pub equals_empty : Option (List PortBinding) → Bool
equals_empty (some []) = true
equals_empty _ = false

-- A loop over the bindings; nil has none.
abbrev pub on_bindings :
    (List PortBinding → List PortBinding) → Option (List PortBinding) → Option (List PortBinding)
on_bindings f none = none
on_bindings f (some pbs) = some (f pbs)

abbrev pub bindings_of : Option (List PortBinding) → List PortBinding
bindings_of none = []
bindings_of (some pbs) = pbs

-- The `switch` of `updateService`: the bindings, and whether they are compared.
unfoldable pub switch_bindings :
    ServiceType → Option (List PortBinding) → List ServicePort → Option (List PortBinding) × Bool
switch_bindings cluster_ip_service pbs ports = (on_bindings update_service_cluster_ip pbs, true)
switch_bindings other_service pbs ports = (pbs, false)
switch_bindings _ pbs ports = (on_bindings (λ b. update_service_node_port b ports) pbs, true)

abbrev pub is_node_port : ServiceType → Bool
is_node_port node_port_service = true
is_node_port _ = false

-- The node with the port bindings that the `switch` of `updateService` leaves.
abbrev pub switched : ComputeNode → ServiceObject → ComputeNode
switched cn s = record cn {
  port_bindings = (switch_bindings cn.service_type cn.port_bindings s.spec.ports).0;
}

module _ (sdk : Sdk) where
  -- `GetByNamespacedName` of pkg/kubernetes, of each kind of object: not found is no error.
  unfoldable pub found_or_none : (q : Request) → Prog (Option (Response q))
  found_or_none q =
      attempt (call q) (λ e. if sdk.is_not_found e then pure none else fail e) (λ o. pure (some o))

  -- `if err != nil && apierrors.IsAlreadyExists(err) || err == nil { return nil }`
  unfoldable pub create_object : (q : Request) → Prog (Unit {0})
  create_object q =
      attempt (call q) (λ e. if sdk.is_already_exists e then pure tt else fail e) (λ _. pure tt)

  unfoldable pub update_deployment_of : ComputeNode → DeploymentObject → Prog (Unit {0})
  update_deployment_of cn deploy =
      let exp = record (sdk.build_deployment cn) {
        object_meta = deploy.object_meta;
        labels = deploy.labels;
        annotations = deploy.annotations;
      } in
      if not (deploy.spec == exp.spec) then call (update_deployment exp) else pure tt

  unfoldable pub apply_deployment : ComputeNode → Option DeploymentObject → Prog (Unit {0})
  apply_deployment cn none = create_object (create_deployment (sdk.build_deployment cn))
  apply_deployment cn (some deploy) = update_deployment_of cn deploy

  -- `reconcileDeployment`
  unfoldable pub reconcile_deployment : ComputeNode → Prog (Unit {0})
  reconcile_deployment cn =
      found_or_none (get_deployment cn.namespace cn.name) >>= λ deploy. apply_deployment cn deploy

  unfoldable pub update_config_map_of : ComputeNode → ConfigMapObject → Prog (Unit {0})
  update_config_map_of cn cm =
      let exp = record (sdk.build_config_map cn) {
        object_meta = cm.object_meta;
        labels = cm.labels;
        annotations = cm.annotations;
      } in
      if not (cm.data_text == exp.data_text) then call (update_config_map exp) else pure tt

  unfoldable pub apply_config_map : ComputeNode → Option ConfigMapObject → Prog (Unit {0})
  apply_config_map cn none = create_object (create_config_map (sdk.build_config_map cn))
  apply_config_map cn (some cm) = update_config_map_of cn cm

  -- `reconcileConfigMap`
  unfoldable pub reconcile_config_map : ComputeNode → Prog (Unit {0})
  reconcile_config_map cn =
      found_or_none (get_config_map cn.namespace cn.name) >>= λ cm. apply_config_map cn cm

  -- `updateComputeNodePortBindings`: a node that cannot be read is no error.
  unfoldable pub update_compute_node_port_bindings : ComputeNode → Prog (Unit {0})
  update_compute_node_port_bindings cn =
      attempt (call (get_compute_node cn.namespace cn.name)) (λ _. pure tt)
        (λ rt. call (update_compute_node (record rt { port_bindings = cn.port_bindings })))

  -- `updateService` after its `switch`
  unfoldable pub update_service_object : ComputeNode → ServiceObject → Prog (Unit {0})
  update_service_object cn s =
      let built = sdk.build_service cn in
      let ports =
        if is_node_port cn.service_type
        then update_node_ports (bindings_of cn.port_bindings) s.spec.ports
        else built.spec.ports in
      let exp = record built {
        object_meta = s.object_meta;
        spec = record built.spec {
          ports = ports;
          cluster_ip = s.spec.cluster_ip;
          cluster_ips = s.spec.cluster_ips;
        };
      } in
      if not (decide (ServiceSpec-discrete exp.spec s.spec))
      then call (update_service exp)
      else pure tt

  -- `updateService`, of the node after its `switch`
  unfoldable pub update_service_switched : Bool → ComputeNode → ServiceObject → Prog (Unit {0})
  update_service_switched compared cn s =
      if compared
      then (if not (equals_empty cn.port_bindings)
          then update_compute_node_port_bindings cn
          else update_service_object cn s)
      else update_service_object cn s

  -- `updateService`
  unfoldable pub update_service_of : ComputeNode → ServiceObject → Prog (Unit {0})
  update_service_of cn s =
      update_service_switched (switch_bindings cn.service_type cn.port_bindings s.spec.ports).1
        (switched cn s) s

  -- The error of a part, with the node as the part leaves it.
  abbrev collected : ComputeNode → Prog (Unit {0}) → Prog (ComputeNode × Option Error)
  collected cn m = attempt m (λ e. pure (cn, some e)) (λ _. pure (cn, none))

  unfoldable pub apply_service :
      ComputeNode → Option ServiceObject → Prog (ComputeNode × Option Error)
  apply_service cn none = collected cn (create_object (create_service (sdk.build_service cn)))
  apply_service cn (some s) = collected (switched cn s) (update_service_of cn s)

  -- `reconcileService`
  unfoldable pub reconcile_service : ComputeNode → Prog (ComputeNode × Option Error)
  reconcile_service cn =
      attempt (found_or_none (get_service cn.namespace cn.name)) (λ e. pure (cn, some e))
        (λ found. apply_service cn found)
