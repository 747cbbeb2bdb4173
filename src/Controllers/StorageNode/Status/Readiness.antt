-- ===== src/Controllers/StorageNode/Status/Readiness.antt =====
-- What the phase of `computeDesiredState` says of the database.
use shardingsphere_on_cloud.Prelude.{
  ◌≡◌, ◌≢◌, ◌↔◌, ◌⊎◌, refl, true, List, [], ◌∷◌, eq_iff, arith, All,
}
use shardingsphere_on_cloud.Sdk.{Sdk}
use shardingsphere_on_cloud.Api.StorageNode.{
  ready, deleting, delete_complete, InstanceStatus, StorageNodeStatus,
}
use shardingsphere_on_cloud.Controllers.StorageNode.Status.{
  Stamps, every_instance_ready, all_instances_ready, desired_phase, compute_desired_state,
}

module _ (sdk : Sdk) where
  abbrev pub IsAvailable : InstanceStatus → Type 0
  IsAvailable i = i.status ≡ sdk.db_instance_status_available

  -- There is an instance, all are available, and so is the cluster, if there is one.
  abbrev pub IsServing : StorageNodeStatus → Type 0
  IsServing s =
      ((s.cluster.status ≡ "") ⊎ (s.cluster.status ≡ sdk.db_cluster_status_available))
      × (s.instances ≢ [])
      × All IsAvailable s.instances

  every_instance_ready-All :
      (is : List InstanceStatus) → every_instance_ready sdk is ≡ true → All IsAvailable is
  unfolding every_instance_ready
  every_instance_ready-All [] h = tt
  every_instance_ready-All (i ∷ is) h = (
    ground (arith, eq_iff i.status sdk.db_instance_status_available),
    every_instance_ready-All is (ground arith),
  )

  every_instance_ready_of_All :
      (is : List InstanceStatus) → All IsAvailable is → every_instance_ready sdk is ≡ true
  unfolding every_instance_ready
  every_instance_ready_of_All [] h = refl
  every_instance_ready_of_All (i ∷ is) h =
      ground (
        arith,
        eq_iff i.status sdk.db_instance_status_available,
        every_instance_ready_of_All is h.1,
      )

  all_instances_ready_iff :
      (is : List InstanceStatus)
      → (all_instances_ready sdk is ≡ true) ↔ ((is ≢ []) × All IsAvailable is)
  unfolding all_instances_ready
  all_instances_ready_iff [] = ((λ h. cc), (λ h. absurd (h.0 refl)))
  all_instances_ready_iff (i ∷ is) = (
    (λ h. ((λ e. cc), every_instance_ready-All (i ∷ is) h)),
    (λ h. every_instance_ready_of_All (i ∷ is) h.1),
  )

  module _ (now : Stamps) where
    -- The desired phase of a node is `ready` exactly if the node is not being deleted, its cluster
    -- has no status or is available, it has an instance and all its instances are available.
    pub ready_iff :
        (s : StorageNodeStatus)
        → ((compute_desired_state sdk now s).phase ≡ ready) ↔ ((s.phase ≢ deleting) × IsServing s)
    unfolding compute_desired_state desired_phase
    ready_iff s =
        let (sound, complete) = all_instances_ready_iff s.instances in
        (
          (λ h. (
            ground (arith, eq_iff s.cluster.status ""),
            (
              ground (
                arith,
                eq_iff s.cluster.status "",
                eq_iff s.cluster.status sdk.db_cluster_status_available,
              ),
              (sound (ground arith)).0,
              (sound (ground arith)).1,
            ),
          )),
          (λ h. ground (
            arith,
            eq_iff s.cluster.status "",
            eq_iff s.cluster.status sdk.db_cluster_status_available,
            complete (h.1.1, h.1.2),
          )),
        )

    -- The desired phase is `delete_complete` exactly if the phase is `deleting`, the cluster has no
    -- status and no instance is left, and it is `deleting` exactly if the phase is `deleting`, but
    -- the cluster has a status or an instance is left: no node enters its deletion here, and one in
    -- phase `delete_complete` does not stay in it.
    pub delete_complete_iff :
        (s : StorageNodeStatus)
        → (((compute_desired_state sdk now s).phase ≡ delete_complete)
            ↔ ((s.phase ≡ deleting) × (s.cluster.status ≡ "") × (s.instances ≡ [])))
          × (((compute_desired_state sdk now s).phase ≡ deleting)
              ↔ ((s.phase ≡ deleting) × ((s.cluster.status ≢ "") ⊎ (s.instances ≢ []))))
    unfolding compute_desired_state desired_phase
    delete_complete_iff s = ground (arith, eq_iff s.cluster.status "")
