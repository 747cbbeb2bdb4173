-- ===== src/Controllers/StorageNode/Status.antt =====
-- `computeDesiredState`, `computeNewConditions` and `allInstancesReady` of
-- pkg/controllers/storage_node_controller.go.
pub mod Readiness
pub mod Conditions
use shardingsphere_on_cloud.Prelude.{
  ℕ, String, Bool, true, false, List, [], ◌∷◌, ◌==◌, ◌&&◌, ◌||◌, if◌then◌else◌, is_empty,
}
use shardingsphere_on_cloud.Sdk.{Sdk}
use shardingsphere_on_cloud.Api.StorageNode.{
  Phase, ready, not_ready, delete_complete, is_ready, is_deleting, ConditionStatus, condition_true,
  condition_false, Condition, InstanceStatus, StorageNodeStatus, available_type, cluster_ready_type,
  registered_type, upsert_condition, remove_condition,
}

-- The readings of `metav1.Now()` for the three conditions.
pub record Stamps : Type 0 where
  pub cluster_ready : ℕ
  pub available : ℕ
  pub registered : ℕ

abbrev pub condition_at : String → ConditionStatus → ℕ → String → Condition
condition_at type status now reason = record {
  type = type;
  status = status;
  last_update_time = now;
  reason = reason;
  message = "";
}

module _ (sdk : Sdk) where
  unfoldable pub every_instance_ready : List InstanceStatus → Bool
  every_instance_ready [] = true
  every_instance_ready (i ∷ is) =
      (i.status == sdk.db_instance_status_available) && every_instance_ready is

  -- `allInstancesReady`: there is an instance, and the loop meets none that is not available.
  unfoldable pub all_instances_ready : List InstanceStatus → Bool
  all_instances_ready [] = false
  all_instances_ready (i ∷ is) = every_instance_ready (i ∷ is)

  unfoldable pub desired_phase : StorageNodeStatus → Phase
  desired_phase status =
      let cluster_status = status.cluster.status in
      if is_deleting status.phase
      then (if (cluster_status == "") && is_empty status.instances
          then delete_complete
          else status.phase)
      else if ((cluster_status == "") || (cluster_status == sdk.db_cluster_status_available))
          && all_instances_ready status.instances
      then ready
      else not_ready

  unfoldable pub update_cluster_condition : Stamps → String → List Condition → List Condition
  update_cluster_condition now cluster_status cs =
      if cluster_status == ""
      then remove_condition cs cluster_ready_type
      else if cluster_status == sdk.db_cluster_status_available
      then upsert_condition cs
          (condition_at cluster_ready_type condition_true now.cluster_ready "Cluster is ready")
      else upsert_condition cs
          (condition_at cluster_ready_type condition_false now.cluster_ready "Cluster is not ready")

  unfoldable pub update_available_condition : Stamps → Phase → List Condition → List Condition
  update_available_condition now phase cs =
      if is_ready phase
      then upsert_condition cs
          (condition_at available_type condition_true now.available "All instances are ready")
      else upsert_condition cs (
          condition_at available_type condition_false now.available
            "One or more instances are not ready")

  unfoldable pub update_registered_condition : Stamps → Bool → List Condition → List Condition
  update_registered_condition now registered cs =
      if registered
      then upsert_condition cs
          (condition_at registered_type condition_true now.registered "StorageNode is registered")
      else upsert_condition cs (
          condition_at registered_type condition_false now.registered
            "StorageNode is not registered")

  -- `computeNewConditions`. The slice that it edits is shared with the status it is given, which
  -- the caller replaces by the result.
  unfoldable pub compute_new_conditions :
      Stamps → StorageNodeStatus → StorageNodeStatus → String → List Condition
  compute_new_conditions now desired_state status cluster_status =
      update_registered_condition now status.registered (
        update_available_condition now desired_state.phase
          (update_cluster_condition now cluster_status status.conditions))

  -- `computeDesiredState`
  unfoldable pub compute_desired_state : Stamps → StorageNodeStatus → StorageNodeStatus
  compute_desired_state now status =
      let desired_state = record status { phase = desired_phase status } in
      record desired_state {
        conditions = compute_new_conditions now desired_state status status.cluster.status;
      }
