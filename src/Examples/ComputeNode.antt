-- ===== src/Examples/ComputeNode.antt =====
-- The compute node controller at concrete inputs.
use shardingsphere_on_cloud.Prelude.{
  ◌-◌, ◌≡◌, ◌==◌, refl, true, not, ◌&&◌, some, [], ◌∷◌, all, any, All, if◌then◌else◌, arith,
}
use shardingsphere_on_cloud.Api.ComputeNode.Status.{
  compute_node_ready, compute_node_not_ready, unknown_type, failed_type, ready_type,
}
use shardingsphere_on_cloud.Effects.Run.{run}
use shardingsphere_on_cloud.Effects.Avoids.{Fails}
use shardingsphere_on_cloud.Controllers.ComputeNode.Pods.{Clock, get_condition_from_pods}
use shardingsphere_on_cloud.Controllers.ComputeNode.Pods.Reported.{
  has_type, is_unknown, is_failed, is_ready, conditions_report,
}
use shardingsphere_on_cloud.Controllers.ComputeNode.Status.{
  count_pods, find_running_pod, has_ready_condition, count_containers,
  reconcile_compute_node_status,
}
use shardingsphere_on_cloud.Controllers.ComputeNode.Status.Phase.{serves, phase_ready}
use shardingsphere_on_cloud.Controllers.ComputeNode.Status.Merged.{
  find_status, set_if_some, conditions_kept,
}
use shardingsphere_on_cloud.Controllers.ComputeNode.Status.Unknown.{conditions_withdrawn}
use shardingsphere_on_cloud.Controllers.ComputeNode.Ports.{
  update_service_cluster_ip, update_service_node_port, update_node_ports, bound, Fills, IsKept,
  bound-cluster_ip, update_service_node_port-Fills, update_node_ports-IsKept,
}
use shardingsphere_on_cloud.Controllers.ComputeNode.Reconcile.{reconcile_compute_node}
use shardingsphere_on_cloud.Controllers.ComputeNode.Workload.{update_service_of}
use shardingsphere_on_cloud.Controllers.ComputeNode.Workload.Unchanged.{
  updates_service, service_never_updated,
}
use shardingsphere_on_cloud.Effects.Orderly.{in_order}
use shardingsphere_on_cloud.Controllers.ComputeNode.Parts.{reads, parts_run}
use shardingsphere_on_cloud.Examples.Data.{sdk, env}
use shardingsphere_on_cloud.Examples.Compute.{
  pod, bindings, service_ports, service, compute_node, compute_status,
}

abbrev clock : Clock
clock t = (1, 1)

conditions_report_example :
    (has_type unknown_type (get_condition_from_pods clock (pod ∷ [])) ≡ all is_unknown (pod ∷ []))
    × (has_type failed_type (get_condition_from_pods clock (pod ∷ [])) ≡ any is_failed (pod ∷ []))
    × (has_type ready_type (get_condition_from_pods clock (pod ∷ []))
        ≡ any (λ p. not (is_unknown p) && not (is_failed p) && is_ready p) (pod ∷ []))
conditions_report_example = conditions_report clock (pod ∷ [])

conditions_kept_example :
    find_status "Ready"
      (reconcile_compute_node_status clock
        (pod ∷ [])
        compute_status.load_balancer
        compute_status).conditions
    ≡ (if has_type "Ready" (get_condition_from_pods clock (pod ∷ []))
        then some "True"
        else find_status "Ready" compute_status.conditions)
conditions_kept_example =
    conditions_kept clock (pod ∷ []) compute_status.load_balancer compute_status "Ready" refl refl

conditions_withdrawn_example :
    find_status "Unknown"
      (reconcile_compute_node_status clock [] compute_status.load_balancer
        compute_status).conditions
    ≡ (if "Unknown" == unknown_type
        then some "True"
        else set_if_some "False" (find_status "Unknown" compute_status.conditions))
conditions_withdrawn_example =
    conditions_withdrawn clock [] compute_status.load_balancer compute_status "Unknown" refl

phase_ready_example :
    (reconcile_compute_node_status clock
      (pod ∷ [])
      compute_status.load_balancer
      compute_status).phase
    ≡ (if any serves (pod ∷ []) then compute_node_ready else compute_node_not_ready)
unfolding count_pods find_running_pod has_ready_condition count_containers
phase_ready_example =
    phase_ready clock (pod ∷ []) compute_status.load_balancer compute_status (omega arith)

bound-cluster_ip_example : bound (update_service_cluster_ip bindings) ≡ bound bindings - 1
bound-cluster_ip_example = bound-cluster_ip bindings

update_service_node_port-Fills_example :
    Fills bindings (update_service_node_port bindings service_ports)
update_service_node_port-Fills_example = update_service_node_port-Fills bindings service_ports

update_node_ports-IsKept_example :
    All (IsKept bindings service_ports) (update_node_ports bindings service_ports)
update_node_ports-IsKept_example = update_node_ports-IsKept bindings service_ports

parts_run_example :
    in_order (reads compute_node) (run env (reconcile_compute_node sdk clock compute_node)).1 ≡ true
parts_run_example = parts_run sdk clock env compute_node

service_never_updated_example :
    All (Fails updates_service) (run env (update_service_of sdk compute_node service)).1
service_never_updated_example = service_never_updated sdk env compute_node service (λ p. cc) refl
