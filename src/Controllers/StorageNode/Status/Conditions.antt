-- ===== src/Controllers/StorageNode/Status/Conditions.antt =====
-- What the conditions of `computeDesiredState` say of the status.
use shardingsphere_on_cloud.Prelude.{
  String, ◌≡◌, Bool, true, false, Option, none, some, List, arith, ◌==◌, if◌then◌else◌,
}
use shardingsphere_on_cloud.Sdk.{Sdk}
use shardingsphere_on_cloud.Api.StorageNode.{
  Phase, Condition, ConditionStatus, is_ready, condition_true, condition_false, StorageNodeStatus,
  available_type, cluster_ready_type, registered_type,
}
use shardingsphere_on_cloud.Api.StorageNode.Conditions.{
  find_condition, HasDistinctTypes, find_condition-upsert, find_condition-remove,
  HasDistinctTypes-upsert, HasDistinctTypes-remove,
}
use shardingsphere_on_cloud.Controllers.StorageNode.Status.{
  Stamps, condition_at, compute_new_conditions, compute_desired_state, update_cluster_condition,
  update_available_condition, update_registered_condition, desired_phase,
}

HasDistinctTypes-if :
    (b : Bool) (cs ds : List Condition)
    → HasDistinctTypes cs
    → HasDistinctTypes ds
    → HasDistinctTypes (if b then cs else ds)
HasDistinctTypes-if true cs ds h k = h
HasDistinctTypes-if false cs ds h k = k

-- The condition of each type that a status should have.
abbrev pub truth : Bool → ConditionStatus
truth true = condition_true
truth false = condition_false

abbrev pub cluster_condition : Sdk → Stamps → String → Option Condition
cluster_condition sdk now cluster_status =
    if cluster_status == ""
    then none
    else some (
        condition_at cluster_ready_type (truth (cluster_status == sdk.db_cluster_status_available))
          now.cluster_ready
          (if cluster_status == sdk.db_cluster_status_available
            then "Cluster is ready"
            else "Cluster is not ready"))

abbrev pub available_condition : Stamps → Phase → Condition
available_condition now phase =
    condition_at available_type (truth (is_ready phase)) now.available
      (if is_ready phase then "All instances are ready" else "One or more instances are not ready")

abbrev pub registered_condition : Stamps → Bool → Condition
registered_condition now registered =
    condition_at registered_type (truth registered) now.registered
      (if registered then "StorageNode is registered" else "StorageNode is not registered")

module _ (sdk : Sdk) (now : Stamps) where
  update_cluster-HasDistinctTypes :
      (t : String) (cs : List Condition)
      → HasDistinctTypes cs
      → HasDistinctTypes (update_cluster_condition sdk now t cs)
  unfolding update_cluster_condition
  update_cluster-HasDistinctTypes t cs d =
      search (HasDistinctTypes-if, HasDistinctTypes-upsert, HasDistinctTypes-remove)

  update_available-HasDistinctTypes :
      (p : Phase) (cs : List Condition)
      → HasDistinctTypes cs
      → HasDistinctTypes (update_available_condition sdk now p cs)
  unfolding update_available_condition
  update_available-HasDistinctTypes p cs d = search (HasDistinctTypes-if, HasDistinctTypes-upsert)

  update_registered-HasDistinctTypes :
      (b : Bool) (cs : List Condition)
      → HasDistinctTypes cs
      → HasDistinctTypes (update_registered_condition sdk now b cs)
  unfolding update_registered_condition
  update_registered-HasDistinctTypes b cs d = search (HasDistinctTypes-if, HasDistinctTypes-upsert)

  -- Computing the desired state keeps the types of the conditions distinct.
  pub HasDistinctTypes-desired :
      (s : StorageNodeStatus)
      → HasDistinctTypes s.conditions
      → HasDistinctTypes (compute_desired_state sdk now s).conditions
  unfolding compute_desired_state compute_new_conditions
  HasDistinctTypes-desired s d = update_registered-HasDistinctTypes s.registered _ (
      update_available-HasDistinctTypes (desired_phase sdk s) _
        (update_cluster-HasDistinctTypes s.cluster.status _ d))

  find-update_cluster :
      (t cluster_status : String) (cs : List Condition)
      → find_condition t (update_cluster_condition sdk now cluster_status cs) ≡ (
          if cluster_ready_type == t
          then cluster_condition sdk now cluster_status
          else find_condition t cs)
  unfolding update_cluster_condition
  find-update_cluster t cluster_status cs = ground (
    arith,
    find_condition-remove t cluster_ready_type cs,
    find_condition-upsert t
        (condition_at cluster_ready_type condition_true now.cluster_ready "Cluster is ready") cs,
    find_condition-upsert t
        (condition_at cluster_ready_type condition_false now.cluster_ready "Cluster is not ready")
        cs,
  )

  find-update_available :
      (t : String) (p : Phase) (cs : List Condition)
      → find_condition t (update_available_condition sdk now p cs)
        ≡ (if available_type == t then some (available_condition now p) else find_condition t cs)
  unfolding update_available_condition
  find-update_available t p cs = ground (
    arith,
    find_condition-upsert t
        (condition_at available_type condition_true now.available "All instances are ready") cs,
    find_condition-upsert t
        (condition_at available_type condition_false now.available
          "One or more instances are not ready")
        cs,
  )

  find-update_registered :
      (t : String) (b : Bool) (cs : List Condition)
      → find_condition t (update_registered_condition sdk now b cs)
        ≡ (if registered_type == t then some (registered_condition now b) else find_condition t cs)
  unfolding update_registered_condition
  find-update_registered t b cs = ground (
    arith,
    find_condition-upsert t
        (condition_at registered_type condition_true now.registered "StorageNode is registered") cs,
    find_condition-upsert t
        (condition_at registered_type condition_false now.registered
          "StorageNode is not registered")
        cs,
  )

  -- The conditions of the desired state, by type: `Available` says whether the desired phase is
  -- `ready`, `Registered` whether the unit is registered, `ClusterReady` whether the cluster is
  -- available and is there only if the cluster has a status, and a condition of any other type is
  -- the one that the status had.
  pub find_condition-desired :
      (s : StorageNodeStatus) (t : String)
      → find_condition t (compute_desired_state sdk now s).conditions ≡ (
          if registered_type == t
          then some (registered_condition now s.registered)
          else if available_type == t
          then some (available_condition now (compute_desired_state sdk now s).phase)
          else if cluster_ready_type == t
          then cluster_condition sdk now s.cluster.status
          else find_condition t s.conditions)
  unfolding compute_desired_state compute_new_conditions
  find_condition-desired s t =
      let inner = update_cluster_condition sdk now s.cluster.status s.conditions in
      simp (
        find-update_registered t s.registered
            (update_available_condition sdk now (desired_phase sdk s) inner),
        find-update_available t (desired_phase sdk s) inner,
        find-update_cluster t s.cluster.status s.conditions,
      )
