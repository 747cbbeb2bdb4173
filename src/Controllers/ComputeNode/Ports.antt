-- ===== src/Controllers/ComputeNode/Ports.antt =====
-- The node ports of a compute node: `updateServiceNodePort`, `updateServiceClusterIP` and
-- `updateNodePorts` of pkg/controllers/compute_node_controller.go.
use shardingsphere_on_cloud.Prelude.{
  ℕ, suc, ◌-◌, ◌≡◌, refl, ap, ◌∙◌, true, not, List, [], ◌∷◌, ◌++◌, ◌==◌, eqb, if◌then◌else◌, arith,
  ◌⊎◌, inl, inr, All, any, ◌&&◌, eq_iff, eq_refl, All-mono, All-append, Bool-cases,
}
use shardingsphere_on_cloud.Sdk.{ServicePort}
use shardingsphere_on_cloud.Api.ComputeNode.Status.{PortBinding}

-- The inner loop of `updateServiceNodePort`: it ends at the first binding of the name.
unfoldable pub bind_node_port : ServicePort → List PortBinding → List PortBinding
bind_node_port port [] = []
bind_node_port port (pb ∷ pbs) =
    let rest = bind_node_port port pbs in
    if port.name == pb.name
    then (if eqb pb.node_port 0 then record pb { node_port = port.node_port } else pb) ∷ pbs
    else pb ∷ rest

-- `updateServiceNodePort`
unfoldable pub update_service_node_port : List PortBinding → List ServicePort → List PortBinding
update_service_node_port pbs [] = pbs
update_service_node_port pbs (port ∷ ports) =
    update_service_node_port (bind_node_port port pbs) ports

-- `updateServiceClusterIP`: it ends at the first binding with a node port.
unfoldable pub update_service_cluster_ip : List PortBinding → List PortBinding
update_service_cluster_ip [] = []
update_service_cluster_ip (pb ∷ pbs) =
    let rest = update_service_cluster_ip pbs in
    if not (eqb pb.node_port 0) then record pb { node_port = 0 } ∷ pbs else pb ∷ rest

abbrev pub service_port_of : PortBinding → ServicePort → ServicePort
service_port_of pb sp = record {
  name = pb.name;
  protocol = pb.protocol;
  port = pb.service_port;
  target_port = pb.container_port;
  node_port = if not (eqb sp.node_port 0) then sp.node_port else 0;
}

-- The inner loop of `updateNodePorts`
unfoldable pub ports_of_binding : PortBinding → List ServicePort → List ServicePort
ports_of_binding pb [] = []
ports_of_binding pb (sp ∷ sps) =
    let rest = ports_of_binding pb sps in
    if pb.name == sp.name then service_port_of pb sp ∷ rest else rest

-- `updateNodePorts`
unfoldable pub update_node_ports : List PortBinding → List ServicePort → List ServicePort
update_node_ports [] sps = []
update_node_ports (pb ∷ pbs) sps = ports_of_binding pb sps ++ update_node_ports pbs sps

-- How many bindings have a node port.
abbrev pub bound : List PortBinding → ℕ
bound [] = 0
bound (pb ∷ pbs) = if eqb pb.node_port 0 then bound pbs else suc (bound pbs)

-- The bindings of `qs` are those of `ps`, one by one, but for node ports that `ps` lacks.
abbrev pub Fills : List PortBinding → List PortBinding → Type 0
Fills [] [] = Unit
Fills [] (q ∷ qs) = ⊥
Fills (p ∷ ps) [] = ⊥
Fills (p ∷ ps) (q ∷ qs) =
    (record q { node_port = p.node_port } ≡ p)
    × ((p.node_port ≡ q.node_port) ⊎ (p.node_port ≡ 0))
    × Fills ps qs

Fills-refl : (ps : List PortBinding) → Fills ps ps
Fills-refl [] = tt
Fills-refl (p ∷ ps) = (refl, inl refl, Fills-refl ps)

Fills-trans : (ps qs rs : List PortBinding) → Fills ps qs → Fills qs rs → Fills ps rs
Fills-trans [] [] [] f g = tt
Fills-trans (p ∷ ps) (q ∷ qs) (r ∷ rs) f g = (
  ap (λ (x : PortBinding). record x { node_port = p.node_port }) g.0 ∙ f.0,
  ground arith,
  Fills-trans ps qs rs f.2 g.2,
)
Fills-trans [] [] (r ∷ rs) f g = elim g [ ]
Fills-trans [] (q ∷ qs) rs f g = elim f [ ]
Fills-trans (p ∷ ps) [] rs f g = elim f [ ]
Fills-trans (p ∷ ps) (q ∷ qs) [] f g = elim g [ ]

Fills-bind : (port : ServicePort) (ps : List PortBinding) → Fills ps (bind_node_port port ps)
unfolding bind_node_port
Fills-bind port [] = tt
Fills-bind port (p ∷ ps) = ground (arith, Fills-bind port ps, Fills-refl ps)

-- `update_service_cluster_ip` takes away exactly one node port if there is any.
pub bound-cluster_ip :
    (pbs : List PortBinding) → bound (update_service_cluster_ip pbs) ≡ bound pbs - 1
unfolding update_service_cluster_ip
bound-cluster_ip [] = omega arith
bound-cluster_ip (pb ∷ pbs) = ground (arith, bound-cluster_ip pbs)

-- `update_service_node_port` keeps every binding, and changes a node port only where there is none.
pub update_service_node_port-Fills :
    (pbs : List PortBinding) (ports : List ServicePort)
    → Fills pbs (update_service_node_port pbs ports)
unfolding update_service_node_port
update_service_node_port-Fills pbs [] = Fills-refl pbs
update_service_node_port-Fills pbs (port ∷ ports) =
    Fills-trans pbs (bind_node_port port pbs) _ (Fills-bind port pbs)
      (update_service_node_port-Fills (bind_node_port port pbs) ports)

-- A service port that keeps its node port: its name is that of a binding of the list, and a port of
-- the service has this name and this node port.
abbrev pub IsKept : List PortBinding → List ServicePort → ServicePort → Type 0
IsKept pbs sps p =
    (any (λ pb. pb.name == p.name) pbs ≡ true)
    × (any (λ sp. (sp.name == p.name) && eqb sp.node_port p.node_port) sps ≡ true)

service_port_of-IsKept :
    (pb : PortBinding) (pbs : List PortBinding) (sp : ServicePort) (sps : List ServicePort)
    → (pb.name == sp.name) ≡ true
    → IsKept (pb ∷ pbs) (sp ∷ sps) (service_port_of pb sp)
service_port_of-IsKept pb pbs sp sps e =
    ground (arith, eq_refl pb.name, eq_iff pb.name sp.name, eq_iff sp.name pb.name)

ports_of_binding-IsKept :
    (pb : PortBinding) (pbs : List PortBinding) (sps : List ServicePort)
    → All (IsKept (pb ∷ pbs) sps) (ports_of_binding pb sps)
unfolding ports_of_binding
ports_of_binding-IsKept pb pbs [] = tt
ports_of_binding-IsKept pb pbs (sp ∷ sps) =
    let rest =
      All-mono (IsKept (pb ∷ pbs) sps) (IsKept (pb ∷ pbs) (sp ∷ sps)) (λ p k. (k.0, ground arith)) _
        (ports_of_binding-IsKept pb pbs sps) in
    elim (Bool-cases (pb.name == sp.name)) [
      | inl e ↦ rw e (service_port_of-IsKept pb pbs sp sps e, rest)
      | inr e ↦ rw e rest
    ]

-- Each port of `update_node_ports` keeps its node port: its name is that of a binding, and the
-- service has a port of this name with this node port.
pub update_node_ports-IsKept :
    (pbs : List PortBinding) (sps : List ServicePort)
    → All (IsKept pbs sps) (update_node_ports pbs sps)
unfolding update_node_ports
update_node_ports-IsKept [] sps = tt
update_node_ports-IsKept (pb ∷ pbs) sps =
    All-append (IsKept (pb ∷ pbs) sps) (ports_of_binding pb sps) _
      (ports_of_binding-IsKept pb pbs sps)
      (All-mono (IsKept pbs sps) (IsKept (pb ∷ pbs) sps) (λ p k. (ground arith, k.1)) _
        (update_node_ports-IsKept pbs sps))
