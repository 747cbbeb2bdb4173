-- ===== src/Controllers/ComputeNode/Status.antt =====
-- `reconcileComputeNodeStatus` of pkg/controllers/compute_node_controller.go and what it calls.
pub mod Phase
pub mod Unknown
pub mod Merged
use shardingsphere_on_cloud.Prelude.{
  ℕ, suc, ◌+◌, String, ◌<>◌, Bool, true, false, ◌&&◌, ◌||◌, not, List, [], ◌∷◌, ◌++◌, map, ◌==◌,
  ltb, is_empty, length, if◌then◌else◌,
}
use shardingsphere_on_cloud.Go.Number.{ℤ, pos, negsuc, int32, decimal}
use shardingsphere_on_cloud.Api.ComputeNode.Status.{
  ComputeNodeCondition, ComputeNodePhase, compute_node_ready, compute_node_not_ready,
  ComputeNodeStatus, LoadBalancerStatus, unknown_type,
}
use shardingsphere_on_cloud.Sdk.{
  Pod, PodPhase, PodCondition, PodConditionType, pod_running, pod_ready, ContainerStatus,
}
use shardingsphere_on_cloud.Controllers.ComputeNode.Pods.{Clock, get_condition_from_pods}

-- `isTrueReadyPod`
unfoldable pub has_ready_condition : List PodCondition → Bool
has_ready_condition [] = false
has_ready_condition (c ∷ cs) =
    let rest = has_ready_condition cs in
    if (elim c.type [ pod_ready ↦ true | _ ↦ false ]) && c.is_true then true else rest

-- The loop of `findRunningPod` over the containers, from a count.
unfoldable pub count_containers : List ContainerStatus → ℕ → ℕ
count_containers [] cnt = cnt
count_containers (c ∷ cs) cnt =
    count_containers cs (if (c.name == "shardingsphere-proxy") && c.ready then cnt + 1 else cnt)

abbrev pub is_running : PodPhase → Bool
is_running pod_running = true
is_running _ = false

unfoldable pub find_running_pod : Pod → ℕ → ℕ
find_running_pod pod cnt =
    let counted = count_containers pod.container_statuses cnt in
    if not (is_running pod.phase)
    then cnt
    else if has_ready_condition pod.conditions
    then counted
    else cnt

unfoldable pub count_pods : List Pod → ℕ → ℕ
count_pods [] cnt = cnt
count_pods (p ∷ pods) cnt = count_pods pods (find_running_pod p cnt)

-- `getReadyProxyInstances`, whose count is an int32.
unfoldable pub get_ready_proxy_instances : List Pod → ℤ
get_ready_proxy_instances pods = int32 (pos (count_pods pods 0))

-- The body of the inner loop of `updateComputeNodeStatusCondition`.
unfoldable pub merge_into : ComputeNodeCondition → ComputeNodeCondition → ComputeNodeCondition
merge_into c x =
    let timed = record x { last_update_time = c.last_update_time } in
    if x.type == c.type
    then record timed { type = c.type; status = c.status; message = c.message; reason = c.reason }
    else if (c.type == unknown_type) || (x.type == unknown_type)
    then record timed { status = "False" }
    else timed

-- `found` after the inner loop.
unfoldable pub is_found : ComputeNodeCondition → List ComputeNodeCondition → Bool
is_found c [] = false
is_found c (x ∷ xs) = (x.type == c.type) || is_found c xs

-- An iteration of the outer loop.
unfoldable pub merge_condition :
    List ComputeNodeCondition → ComputeNodeCondition → List ComputeNodeCondition
merge_condition conditions c =
    let merged = map (merge_into c) conditions in
    if is_empty merged || not (is_found c conditions) then merged ++ c ∷ [] else merged

-- `updateComputeNodeStatusCondition`
unfoldable pub update_compute_node_status_condition :
    List ComputeNodeCondition → List ComputeNodeCondition → List ComputeNodeCondition
update_compute_node_status_condition conditions [] = conditions
update_compute_node_status_condition conditions (c ∷ conds) =
    update_compute_node_status_condition (merge_condition conditions c) conds

-- `%d` of an int32
abbrev pub signed_decimal : ℤ → String
signed_decimal (pos n) = decimal n
signed_decimal (negsuc n) = "-" <> decimal (suc n)

abbrev pub is_positive : ℤ → Bool
is_positive (pos n) = ltb 0 n
is_positive (negsuc n) = false

-- `reconcileComputeNodeStatus`, of the pods, and the cluster IP and ingresses of the service.
unfoldable pub reconcile_compute_node_status :
    Clock → List Pod → LoadBalancerStatus → ComputeNodeStatus → ComputeNodeStatus
reconcile_compute_node_status clock pods service status =
    let conds = get_condition_from_pods clock pods in
    let ready = get_ready_proxy_instances pods in
    record status {
      conditions = update_compute_node_status_condition status.conditions conds;
      ready = signed_decimal ready <> ("/" <> decimal (length pods));
      replicas = int32 (pos (length pods));
      phase = if is_positive ready then compute_node_ready else compute_node_not_ready;
      load_balancer = service;
    }
