-- ===== src/Controllers/ComputeNode/Workload/Unchanged.antt =====
-- What `updateService` never does.
use shardingsphere_on_cloud.Prelude.{
  ◌≡◌, ◌≢◌, refl, Bool, true, false, Option, none, some, List, [], ◌∷◌, All, arith,
}
use shardingsphere_on_cloud.Sdk.{Sdk, ServiceObject, ServicePort}
use shardingsphere_on_cloud.Api.ComputeNode.{
  ComputeNode, ServiceType, cluster_ip_service, external_name, load_balancer_service,
  node_port_service, other_service,
}
use shardingsphere_on_cloud.Api.ComputeNode.Status.{PortBinding}
use shardingsphere_on_cloud.Effects.{Request, attempt}
use shardingsphere_on_cloud.Effects.Run.{Env, run}
use shardingsphere_on_cloud.Effects.Avoids.{Fails, Avoids, Avoids-run}
use shardingsphere_on_cloud.Controllers.ComputeNode.Ports.{
  update_service_cluster_ip, update_service_node_port, Fills, update_service_node_port-Fills,
}
use shardingsphere_on_cloud.Controllers.ComputeNode.Workload.{
  equals_empty, on_bindings, switch_bindings, switched, update_service_of, update_service_switched,
  update_compute_node_port_bindings,
}

-- The request updates the service.
abbrev pub updates_service : Request → Bool
updates_service (Request.update_service _) = true
updates_service _ = false

cluster_ip-kept :
    (o : Option (List PortBinding))
    → equals_empty o ≡ false
    → equals_empty (on_bindings update_service_cluster_ip o) ≡ false
unfolding update_service_cluster_ip
cluster_ip-kept none h = refl
cluster_ip-kept (some []) h = cc
cluster_ip-kept (some (pb ∷ pbs)) h = ground arith

Fills-kept :
    (pb : PortBinding) (ps qs : List PortBinding)
    → Fills (pb ∷ ps) qs
    → equals_empty (some qs) ≡ false
Fills-kept pb ps [] f = absurd f
Fills-kept pb ps (q ∷ qs) f = refl

node_port-kept :
    (ports : List ServicePort) (o : Option (List PortBinding))
    → equals_empty o ≡ false
    → equals_empty (on_bindings (λ b. update_service_node_port b ports) o) ≡ false
node_port-kept ports none h = refl
node_port-kept ports (some []) h = cc
node_port-kept ports (some (pb ∷ pbs)) h =
    Fills-kept pb pbs _ (update_service_node_port-Fills (pb ∷ pbs) ports)

switch_bindings-kept :
    (t : ServiceType) (o : Option (List PortBinding)) (ports : List ServicePort)
    → t ≢ other_service
    → equals_empty o ≡ false
    → ((switch_bindings t o ports).1 ≡ true) × (equals_empty (switch_bindings t o ports).0 ≡ false)
unfolding switch_bindings
switch_bindings-kept cluster_ip_service o ports n h = (refl, cluster_ip-kept o h)
switch_bindings-kept other_service o ports n h = absurd (n refl)
switch_bindings-kept external_name o ports n h = (refl, node_port-kept ports o h)
switch_bindings-kept load_balancer_service o ports n h = (refl, node_port-kept ports o h)
switch_bindings-kept node_port_service o ports n h = (refl, node_port-kept ports o h)

module _ (sdk : Sdk) where
  switched-Avoids :
      (b : Bool) (cn : ComputeNode) (s : ServiceObject)
      → b ≡ true
      → equals_empty cn.port_bindings ≡ false
      → Avoids updates_service (update_service_switched sdk b cn s)
  unfolding update_service_switched update_compute_node_port_bindings attempt
  switched-Avoids true cn s e h = ground arith
  switched-Avoids false cn s e h = cc

  -- If the service type is one of the four of Kubernetes and the port bindings are not an empty
  -- slice other than nil, then no run of `update_service_of` updates the service, whatever the
  -- answers and however far the service is from the one expected.
  pub service_never_updated :
      (env : Env) (cn : ComputeNode) (s : ServiceObject)
      → cn.service_type ≢ other_service
      → equals_empty cn.port_bindings ≡ false
      → All (Fails updates_service) (run env (update_service_of sdk cn s)).1
  unfolding update_service_of
  service_never_updated env cn s n h =
      let (c, k) = switch_bindings-kept cn.service_type cn.port_bindings s.spec.ports n h in
      Avoids-run updates_service env _ (
        switched-Avoids (switch_bindings cn.service_type cn.port_bindings s.spec.ports).1
          (switched cn s) s c k)
