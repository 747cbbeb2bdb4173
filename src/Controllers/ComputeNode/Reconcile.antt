-- ===== src/Controllers/ComputeNode/Reconcile.antt =====
-- `Reconcile` and `reconcileStatus` of pkg/controllers/compute_node_controller.go.
use shardingsphere_on_cloud.Prelude.{String, Option, none, some, List, [], ◌∷◌, if◌then◌else◌}
use shardingsphere_on_cloud.Go.{Error}
use shardingsphere_on_cloud.Sdk.{Sdk, ServiceObject}
use shardingsphere_on_cloud.Api.ComputeNode.{ComputeNode}
use shardingsphere_on_cloud.Api.ComputeNode.Status.{LoadBalancerStatus, ComputeNodeStatus}
use shardingsphere_on_cloud.Effects.{
  Prog, done, attempt, pure, fail, call, ◌>>=◌, get_compute_node, get_service, list_pods,
  update_compute_node_status,
}
use shardingsphere_on_cloud.Controllers.{Verdict, requeue_now, requeue_later}
use shardingsphere_on_cloud.Controllers.StorageNode.Store.{finish, stop}
use shardingsphere_on_cloud.Controllers.ComputeNode.Pods.{Clock}
use shardingsphere_on_cloud.Controllers.ComputeNode.Status.{reconcile_compute_node_status}
use shardingsphere_on_cloud.Controllers.ComputeNode.Workload.{
  reconcile_deployment, reconcile_service, reconcile_config_map,
}

-- The zero `corev1.Service`, which is read where none is found.
abbrev no_load_balancer : LoadBalancerStatus
no_load_balancer = record { cluster_ip = ""; ingress = [] }

abbrev load_balancer_of : ServiceObject → LoadBalancerStatus
load_balancer_of s = record { cluster_ip = s.spec.cluster_ip; ingress = s.ingress }

abbrev pub with_status : ComputeNode → ComputeNodeStatus → ComputeNode
with_status cn status = record cn { status = status }

-- The error that the caller collects.
abbrev pub error_of : Prog (Unit {0}) → Prog (Option Error)
error_of m = attempt m (λ e. pure (some e)) (λ _. pure none)

-- `if len(errors) != 0 { return …, errors[0] }`
unfoldable pub first_error : List (Option Error) → Option Error
first_error [] = none
first_error (none ∷ es) = first_error es
first_error (some e ∷ es) = some e

unfoldable pub verdict_of : Option Error → Prog Verdict
verdict_of none = finish requeue_later
verdict_of (some e) = stop requeue_now e

module _ (sdk : Sdk) (clock : Clock) where
  unfoldable pub service_status : ComputeNode → Prog LoadBalancerStatus
  service_status cn =
      attempt (call (get_service cn.namespace cn.name))
        (λ e. if sdk.is_not_found e then pure no_load_balancer else fail e)
        (λ s. pure (load_balancer_of s))

  -- The end of `reconcileStatus`: the status goes to the node as the server has it.
  unfoldable pub store_status : ComputeNode → ComputeNodeStatus → String → Prog ComputeNode
  store_status cn status selector =
      attempt (call (get_compute_node cn.namespace cn.name)) (λ _. pure (with_status cn status))
        (λ rt.
          let selected = record status { selector = selector } in
          attempt (call (update_compute_node_status (with_status rt selected)))
            (λ _. pure (with_status cn selected)) (λ _. pure (with_status cn selected)))

  -- `reconcileStatus`, which writes to the status of the node. The caller only logs its errors.
  unfoldable pub reconcile_status : ComputeNode → Prog ComputeNode
  reconcile_status cn =
      attempt (done (sdk.label_selector cn)) (λ _. pure cn)
        (λ selector.
          attempt (call (list_pods cn.namespace cn.match_labels)) (λ _. pure cn)
            (λ pods.
              attempt (service_status cn) (λ _. pure cn)
                (λ service.
                  store_status cn (reconcile_compute_node_status clock pods service cn.status)
                    selector)))

  -- The parts of `Reconcile`: an error of one does not keep the next from running.
  unfoldable pub reconcile_parts : ComputeNode → Prog Verdict
  reconcile_parts cn = error_of (reconcile_deployment sdk cn) >>= λ deployment_error.
      reconcile_service sdk cn >>= λ served.
      error_of (reconcile_config_map sdk served.0) >>= λ config_map_error.
      verdict_of (first_error (deployment_error ∷ served.1 ∷ config_map_error ∷ []))

  unfoldable pub reconcile_compute_node : ComputeNode → Prog Verdict
  reconcile_compute_node cn = reconcile_status cn >>= λ updated. reconcile_parts updated

  -- `Reconcile` of the compute node named in the request
  unfoldable pub reconcile_request : String → String → Prog Verdict
  reconcile_request namespace name =
      attempt (call (get_compute_node namespace name))
        (λ e. if sdk.is_not_found e then finish requeue_later else stop requeue_now e)
        (λ cn. reconcile_compute_node cn)
