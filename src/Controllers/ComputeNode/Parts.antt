-- ===== src/Controllers/ComputeNode/Parts.antt =====
-- The parts of a reconciliation of a compute node all run.
use shardingsphere_on_cloud.Prelude.{
  ◌≡◌, ◌∙◌, refl, Bool, true, false, List, [], ◌∷◌, ◌==◌, ◌&&◌, eq_refl, arith,
}
use shardingsphere_on_cloud.Sdk.{Sdk}
use shardingsphere_on_cloud.Api.ComputeNode.{ComputeNode}
use shardingsphere_on_cloud.Effects.{Request, attempt}
use shardingsphere_on_cloud.Effects.Run.{Env, History, run, Always-run}
use shardingsphere_on_cloud.Effects.Orderly.{
  Yields, Asks, in_order, Orderly, Orderly-then, Orderly-ask, Orderly-end,
}
use shardingsphere_on_cloud.Controllers.ComputeNode.Pods.{Clock}
use shardingsphere_on_cloud.Controllers.ComputeNode.Workload.{
  found_or_none, create_object, reconcile_deployment, apply_deployment, update_deployment_of,
  reconcile_service, apply_service, update_service_of, update_service_switched,
  update_service_object, update_compute_node_port_bindings, reconcile_config_map, apply_config_map,
  update_config_map_of,
}
use shardingsphere_on_cloud.Controllers.ComputeNode.Reconcile.{
  error_of, reconcile_status, store_status, service_status, reconcile_parts, reconcile_compute_node,
}

abbrev pub reads_deployment : ComputeNode → Request → Bool
reads_deployment cn (Request.get_deployment namespace name) =
    (namespace == cn.namespace) && (name == cn.name)
reads_deployment cn _ = false

abbrev pub reads_service : ComputeNode → Request → Bool
reads_service cn (Request.get_service namespace name) =
    (namespace == cn.namespace) && (name == cn.name)
reads_service cn _ = false

abbrev pub reads_config_map : ComputeNode → Request → Bool
reads_config_map cn (Request.get_config_map namespace name) =
    (namespace == cn.namespace) && (name == cn.name)
reads_config_map cn _ = false

-- The three reads of the node's objects, the latest first.
abbrev pub reads : ComputeNode → List (Request → Bool)
reads cn = reads_config_map cn ∷ reads_service cn ∷ reads_deployment cn ∷ []

abbrev IsSame : ComputeNode → ComputeNode → Type 0
IsSame cn n = (n.namespace ≡ cn.namespace) × (n.name ≡ cn.name)

module _ (sdk : Sdk) where
  deployment-Yields :
      (cn : ComputeNode) → Yields (λ _. Unit) (error_of (reconcile_deployment sdk cn))
  unfolding reconcile_deployment found_or_none apply_deployment create_object update_deployment_of
      attempt
  deployment-Yields cn = ground arith

  service-Yields : (cn : ComputeNode) → Yields (λ r. IsSame cn r.0) (reconcile_service sdk cn)
  unfolding reconcile_service found_or_none apply_service create_object update_service_of
      update_service_switched update_service_object update_compute_node_port_bindings attempt
  service-Yields cn = ground arith

  config_map-Yields :
      (cn : ComputeNode) → Yields (λ _. Unit) (error_of (reconcile_config_map sdk cn))
  unfolding reconcile_config_map found_or_none apply_config_map create_object update_config_map_of
      attempt
  config_map-Yields cn = ground arith

  module _ (cn n : ComputeNode) (same : IsSame cn n) where
    deployment-Asks : Asks (reads_deployment cn) (error_of (reconcile_deployment sdk n))
    unfolding reconcile_deployment found_or_none attempt
    deployment-Asks = rw same.0 (rw same.1 (rw (eq_refl cn.namespace) (rw (eq_refl cn.name) refl)))

    service-Asks : Asks (reads_service cn) (reconcile_service sdk n)
    unfolding reconcile_service found_or_none attempt
    service-Asks = rw same.0 (rw same.1 (rw (eq_refl cn.namespace) (rw (eq_refl cn.name) refl)))

    config_map-Asks : Asks (reads_config_map cn) (error_of (reconcile_config_map sdk n))
    unfolding reconcile_config_map found_or_none attempt
    config_map-Asks = rw same.0 (rw same.1 (rw (eq_refl cn.namespace) (rw (eq_refl cn.name) refl)))

  module _ (clock : Clock) where
    status-Yields : (cn : ComputeNode) → Yields (IsSame cn) (reconcile_status sdk clock cn)
    unfolding reconcile_status service_status store_status attempt
    status-Yields cn = ground arith

    parts-Orderly :
        (cn n : ComputeNode) (h : History)
        → IsSame cn n
        → Orderly (reads cn) h (reconcile_parts sdk clock n)
    unfolding reconcile_parts
    parts-Orderly cn n h same =
        let d = reads_deployment cn in
        let s = reads_service cn in
        Orderly-ask (reads cn) d [] (λ _. Unit) h _ _ _ (deployment-Asks cn n same)
          (deployment-Yields n) refl
          λ _ g _ o.
            Orderly-ask (reads cn) s (d ∷ []) (λ r. IsSame n r.0) g _ _ _ (service-Asks cn n same)
              (service-Yields n) o
              λ served g i o.
                Orderly-ask (reads cn) (reads_config_map cn) (s ∷ d ∷ []) (λ _. Unit) g _ _ _
                  (config_map-Asks cn served.0 (i.0 ∙ same.0, i.1 ∙ same.1))
                  (config_map-Yields served.0) o λ _ g _ o. Orderly-end (reads cn) g _ o

    -- Every run of `reconcile_compute_node`, whatever the answers, asks for the deployment, after it
    -- for the service and after that for the config map, each by the namespace and the name of the
    -- node: an error of the status or of one part does not keep the others from being reconciled.
    pub parts_run :
        (env : Env) (cn : ComputeNode)
        → in_order (reads cn) (run env (reconcile_compute_node sdk clock cn)).1 ≡ true
    unfolding reconcile_compute_node
    parts_run env cn =
        Always-run (λ _ g. in_order (reads cn) g ≡ true) env _
          (Orderly-then (reads cn) [] (IsSame cn) [] (reconcile_status sdk clock cn) _ _
            (status-Yields cn) refl (λ n g same _. parts-Orderly cn n g same))
