-- ===== src/Controllers/ComputeNode/Pods.antt =====
-- pkg/reconcile/computenode/utils.go: the conditions of a compute node from its pods.
pub mod Reported
use shardingsphere_on_cloud.Prelude.{
  ℕ, ◌+◌, String, Bool, true, false, List, [], ◌∷◌, ◌++◌, ◌==◌, ltb, eqb, length, if◌then◌else◌,
}
use shardingsphere_on_cloud.Sdk.{
  PodPhase, pod_pending, pod_running, pod_succeeded, pod_failed, pod_unknown, other_phase,
  PodConditionType, pod_scheduled, pod_initialized, containers_ready, pod_ready, other_condition,
  PodCondition, Pod,
}
use shardingsphere_on_cloud.Api.ComputeNode.Status.{
  ComputeNodeCondition, pending_type, deployed_type, initialized_type, started_type, ready_type,
  unknown_type, failed_type,
}

-- The readings of `time.Now()` for the condition of each type: update and transition.
abbrev pub Clock : Type 0
Clock = String → ℕ × ℕ

-- A condition of which only the type is set.
abbrev pub typed : String → ComputeNodeCondition
typed t = record {
  type = t;
  status = "";
  last_transition_time = 0;
  last_update_time = 0;
  reason = "";
  message = "";
}

-- `newCondition`
unfoldable pub new_condition : Clock → String → String → String → ComputeNodeCondition
new_condition clock t reason message = record {
  type = t;
  status = "True";
  last_update_time = (clock t).0;
  last_transition_time = (clock t).1;
  reason = reason;
  message = message;
}

-- The body of the loop of `getPreferedConditionFromPodConditions`, of a condition that is true.
abbrev pub prefered_of_type : PodConditionType → List ComputeNodeCondition
prefered_of_type pod_scheduled = typed deployed_type ∷ []
prefered_of_type pod_initialized = typed initialized_type ∷ []
prefered_of_type containers_ready = typed started_type ∷ []
prefered_of_type pod_ready = typed ready_type ∷ []
prefered_of_type other_condition = []

-- `getPreferedConditionFromPodConditions`
unfoldable pub prefered_from_conditions : List PodCondition → List ComputeNodeCondition
prefered_from_conditions [] = []
prefered_from_conditions (c ∷ cs) =
    let rest = prefered_from_conditions cs in
    if c.is_true then prefered_of_type c.type ++ rest else rest

-- `getPreferedConditionFromPod` after the conditions of the pod are read.
unfoldable pub prefered_in_phase : PodPhase → List ComputeNodeCondition → List ComputeNodeCondition
prefered_in_phase pod_unknown cs = typed unknown_type ∷ []
prefered_in_phase pod_pending cs = typed pending_type ∷ cs
prefered_in_phase pod_running cs = if eqb (length cs) 4 then typed pending_type ∷ cs else cs
prefered_in_phase pod_failed cs = typed failed_type ∷ []
prefered_in_phase pod_succeeded cs = cs
prefered_in_phase other_phase cs = cs

-- `getPreferedConditionFromPod`
unfoldable pub prefered_from_pod : Pod → List ComputeNodeCondition
prefered_from_pod pod = prefered_in_phase pod.phase (prefered_from_conditions pod.conditions)

-- `result`, the count of each type of condition.
abbrev pub Tally : Type 0
Tally = String → ℕ

abbrev pub increment : String → Tally → Tally
increment t result s = if t == s then result s + 1 else result s

unfoldable pub tally_conditions : List ComputeNodeCondition → Tally → Tally
tally_conditions [] result = result
tally_conditions (c ∷ cs) result = tally_conditions cs (increment c.type result)

unfoldable pub tally_pods : List Pod → Tally → Tally
tally_pods [] result = result
tally_pods (p ∷ pods) result = tally_pods pods (tally_conditions (prefered_from_pod p) result)

-- A sequence of `if b { conds = append(conds, …) }`
unfoldable pub appended : List (Bool × ComputeNodeCondition) → List ComputeNodeCondition
appended [] = []
appended ((b, c) ∷ rest) = let conds = appended rest in if b then c ∷ conds else conds

unfoldable pub conditions_of_tally : Clock → Tally → ℕ → List ComputeNodeCondition
conditions_of_tally clock result pods = appended (
    (
      eqb (result unknown_type) pods,
      new_condition clock unknown_type "PodUnknown" "All pods are unknown",
    )
    ∷ (ltb 0 (result ready_type), new_condition clock ready_type "PodReady" "Some pods are ready")
    ∷ (
      ltb 0 (result started_type),
      new_condition clock started_type "PodStarted" "Some pods are started",
    )
    ∷ (
      ltb 0 (result initialized_type),
      new_condition clock initialized_type "PodInitialized" "Some pods are initialized",
    )
    ∷ (
      ltb 0 (result deployed_type),
      new_condition clock deployed_type "PodDeployed" "Some pods are deployed",
    )
    ∷ (
      ltb 0 (result pending_type),
      new_condition clock pending_type "PodPending" "Some pods are pending",
    )
    ∷ (
      ltb 0 (result failed_type),
      new_condition clock failed_type "PodFailed" "Some pods are failed",
    )
    ∷ [])

-- `GetConditionFromPods`
unfoldable pub get_condition_from_pods : Clock → List Pod → List ComputeNodeCondition
get_condition_from_pods clock [] =
    new_condition clock unknown_type "PodNotFound" "No pod was found" ∷ []
get_condition_from_pods clock (p ∷ pods) =
    conditions_of_tally clock (tally_pods (p ∷ pods) (λ _. 0)) (length (p ∷ pods))
