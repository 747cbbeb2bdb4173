-- ===== src/Controllers/ComputeNode/Status/Phase.antt =====
-- What the phase of `reconcileComputeNodeStatus` says of the pods.
use shardingsphere_on_cloud.Prelude.{
  ℕ, ◌+◌, ◌<◌, ◌^◌, ◌%◌, ◌≡◌, refl, Bool, ◌&&◌, ◌||◌, List, [], ◌∷◌, ◌==◌, ltb, any, if◌then◌else◌,
  arith,
}
use shardingsphere_on_cloud.Go.Number.{pos, int32}
use shardingsphere_on_cloud.Api.ComputeNode.Status.{
  ComputeNodeStatus, LoadBalancerStatus, compute_node_ready, compute_node_not_ready,
}
use shardingsphere_on_cloud.Sdk.{Pod, PodCondition, ContainerStatus}
use shardingsphere_on_cloud.Controllers.ComputeNode.Pods.{Clock}
use shardingsphere_on_cloud.Controllers.ComputeNode.Pods.Reported.{is_ready_type, is_ready}
use shardingsphere_on_cloud.Controllers.ComputeNode.Status.{
  has_ready_condition, count_containers, is_running, find_running_pod, count_pods,
  get_ready_proxy_instances, is_positive, reconcile_compute_node_status,
}

abbrev is_proxy : ContainerStatus → Bool
is_proxy c = (c.name == "shardingsphere-proxy") && c.ready

-- The pod runs, is ready, and a proxy container of it is ready.
abbrev pub serves : Pod → Bool
serves pod = is_running pod.phase && is_ready pod && any is_proxy pod.container_statuses

has_ready_condition-any :
    (cs : List PodCondition)
    → has_ready_condition cs ≡ any (λ c. c.is_true && is_ready_type c.type) cs
unfolding has_ready_condition
has_ready_condition-any [] = refl
has_ready_condition-any (c ∷ cs) = ground (arith, has_ready_condition-any cs)

count_containers-ltb :
    (cs : List ContainerStatus) (cnt : ℕ)
    → ltb 0 (count_containers cs cnt) ≡ (ltb 0 cnt || any is_proxy cs)
unfolding count_containers
count_containers-ltb [] cnt = ground arith
count_containers-ltb (c ∷ cs) cnt =
    ground (arith, count_containers-ltb cs cnt, count_containers-ltb cs (cnt + 1))

find_running_pod-ltb :
    (p : Pod) (cnt : ℕ) → ltb 0 (find_running_pod p cnt) ≡ (ltb 0 cnt || serves p)
unfolding find_running_pod
find_running_pod-ltb p cnt =
    ground
      (arith, count_containers-ltb p.container_statuses cnt, has_ready_condition-any p.conditions)

count_pods-ltb :
    (pods : List Pod) (cnt : ℕ) → ltb 0 (count_pods pods cnt) ≡ (ltb 0 cnt || any serves pods)
unfolding count_pods
count_pods-ltb [] cnt = ground arith
count_pods-ltb (p ∷ pods) cnt =
    ground (arith, count_pods-ltb pods (find_running_pod p cnt), find_running_pod-ltb p cnt)

int32-positive : (n : ℕ) → n < 2 ^ 31 → is_positive (int32 (pos n)) ≡ ltb 0 n
unfolding int32
int32-positive n h = ground (arith, id)
  where
    id : n % 2 ^ 32 ≡ n
    id = omega (arith, h)

-- If fewer than 2^31 containers are counted, then the phase is ready exactly if some pod runs, has
-- a true condition `Ready` and a ready container `shardingsphere-proxy`; otherwise it is not ready.
pub phase_ready :
    (clock : Clock) (pods : List Pod) (service : LoadBalancerStatus) (status : ComputeNodeStatus)
    → count_pods pods 0 < 2 ^ 31
    → (reconcile_compute_node_status clock pods service status).phase
      ≡ (if any serves pods then compute_node_ready else compute_node_not_ready)
unfolding reconcile_compute_node_status get_ready_proxy_instances
phase_ready clock pods service status h =
    ground (arith, int32-positive (count_pods pods 0) h, count_pods-ltb pods 0)
