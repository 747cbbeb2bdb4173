-- ===== src/Controllers/ComputeNode/Status/Unknown.antt =====
-- The conditions of a compute node whose pods are all in phase unknown.
use shardingsphere_on_cloud.Prelude.{
  String, ◌≡◌, refl, ap, ◌∙◌, Bool, true, false, some, List, [], ◌∷◌, ◌==◌, eq_iff, eqb, ltb,
  length, all, if◌then◌else◌, arith,
}
use shardingsphere_on_cloud.Sdk.{Pod}
use shardingsphere_on_cloud.Api.ComputeNode.Status.{
  ComputeNodeCondition, ComputeNodeStatus, LoadBalancerStatus, pending_type, deployed_type,
  initialized_type, started_type, ready_type, unknown_type, failed_type,
}
use shardingsphere_on_cloud.Controllers.ComputeNode.Pods.{
  Clock, tally_pods, prefered_from_pod, prefered_in_phase, appended, conditions_of_tally,
  get_condition_from_pods, new_condition,
}
use shardingsphere_on_cloud.Controllers.ComputeNode.Pods.Reported.{
  is_unknown, count, count_pods, tallied, eqb-count_pods,
}
use shardingsphere_on_cloud.Controllers.ComputeNode.Status.{
  update_compute_node_status_condition, reconcile_compute_node_status,
}
use shardingsphere_on_cloud.Controllers.ComputeNode.Status.Merged.{
  find_status, set_if_some, find_status-merge,
}

prefered-unknown :
    (t : String) (p : Pod)
    → is_unknown p ≡ true
    → (unknown_type == t) ≡ false
    → count t (prefered_from_pod p) ≡ 0
unfolding prefered_from_pod prefered_in_phase
prefered-unknown t p u h = ground arith

count_pods-unknown :
    (t : String) (pods : List Pod)
    → all is_unknown pods ≡ true
    → (unknown_type == t) ≡ false
    → count_pods t pods ≡ 0
count_pods-unknown t [] u h = refl
count_pods-unknown t (p ∷ pods) u h =
    omega (arith, prefered-unknown t p (ground arith) h, count_pods-unknown t pods (ground arith) h)

appended-first :
    (b c d e f g h : Bool) (x y z u v w s : ComputeNodeCondition)
    → (b ≡ true) × (c ≡ false) × (d ≡ false) × (e ≡ false) × (f ≡ false) × (g ≡ false) × (h ≡ false)
    → appended ((b, x) ∷ (c, y) ∷ (d, z) ∷ (e, u) ∷ (f, v) ∷ (g, w) ∷ (h, s) ∷ []) ≡ x ∷ []
unfolding appended
appended-first true false false false false false false x y z u v w s k = refl
appended-first _ _ _ _ _ _ _ x y z u v w s k = cc

-- The only condition is `Unknown`, and it is true.
conditions-unknown :
    (clock : Clock) (pods : List Pod)
    → all is_unknown pods ≡ true
    → (reason message : String) × (get_condition_from_pods clock pods
        ≡ new_condition clock unknown_type reason message ∷ [])
unfolding get_condition_from_pods conditions_of_tally
conditions-unknown clock [] u = ("PodNotFound", "No pod was found", refl)
conditions-unknown clock (p ∷ pods) u = (
  "PodUnknown",
  "All pods are unknown",
  appended-first _ _ _ _ _ _ _ _ _ _ _ _ _ _ (
    ap (λ k. eqb k (length (p ∷ pods))) (tallied unknown_type (p ∷ pods))
        ∙ eqb-count_pods (p ∷ pods)
        ∙ u,
    absent ready_type refl,
    absent started_type refl,
    absent initialized_type refl,
    absent deployed_type refl,
    absent pending_type refl,
    absent failed_type refl,
  ),
)
  where
    absent :
        (t : String)
        → (unknown_type == t) ≡ false
        → ltb 0 (tally_pods (p ∷ pods) (λ _. 0) t) ≡ false
    absent t h = ap (λ k. ltb 0 k) (tallied t (p ∷ pods) ∙ count_pods-unknown t (p ∷ pods) u h)

-- If every pod is in phase unknown, as where there is no pod, then after
-- `reconcile_compute_node_status` the condition `Unknown` has the status "True", and each other
-- condition that there was has the status "False".
pub conditions_withdrawn :
    (clock : Clock) (pods : List Pod) (service : LoadBalancerStatus) (status : ComputeNodeStatus)
    (t : String)
    → all is_unknown pods ≡ true
    → find_status t (reconcile_compute_node_status clock pods service status).conditions ≡ (
        if t == unknown_type
        then some "True"
        else set_if_some "False" (find_status t status.conditions))
unfolding reconcile_compute_node_status update_compute_node_status_condition new_condition
conditions_withdrawn clock pods service status t u =
    let (reason, message, e) = conditions-unknown clock pods u in
    ap (λ cs. find_status t (update_compute_node_status_condition status.conditions cs)) e
    ∙ find_status-merge (new_condition clock unknown_type reason message) t status.conditions
    ∙ ground (arith, eq_iff t unknown_type, eq_iff unknown_type t)
