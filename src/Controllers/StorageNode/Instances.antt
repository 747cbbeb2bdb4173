-- ===== src/Controllers/StorageNode/Instances.antt =====
-- The registration of a node without instances.
use shardingsphere_on_cloud.Prelude.{
  ℕ, String, Option, none, some, List, ◌∷◌, ◌≡◌, ap, inr, refl, Bool, true, false, not, [], ◌==◌,
  eq_iff, arith,
}
use shardingsphere_on_cloud.Go.{wrap}
use shardingsphere_on_cloud.Go.Map.{get}
use shardingsphere_on_cloud.Sdk.{Sdk, ServiceObject, ServicePort}
use shardingsphere_on_cloud.Api.StorageNode.{StorageNode, is_ready}
use shardingsphere_on_cloud.Api.StorageProvider.{StorageProvider}
use shardingsphere_on_cloud.Api.ComputeNode.{ComputeNodeUser}
use shardingsphere_on_cloud.Effects.{Request, attempt, sql_close, get_compute_node}
use shardingsphere_on_cloud.Effects.Run.{Env, run}
use shardingsphere_on_cloud.Effects.Fated.{
  Doomed, Doomed-attempt, Fated, Fated-call, EndsIn, Fated-attempt, Fated-deferring, Fated-else,
  Fated-run,
}
use shardingsphere_on_cloud.ShardingSphere.{new_server, create_database, create_database_sql}
use shardingsphere_on_cloud.Controllers.StorageNode.Connection.{wants_registration}
use shardingsphere_on_cloud.Controllers.StorageNode.Unit.{
  key_register_enabled, key_compute_node_name, key_logic_database_name, get_datasource_info,
  get_datasource_info_from_instance, register_with_server, open_and_register, register_annotated,
  register_unit, get_shardingsphere_server, get_service_by_name, first_user, first_port,
  found_service, validate_compute_node_annotations, check_annotations,
}

-- The panic of the Go runtime at `Instances[0]`.
abbrev pub out_of_range : String
out_of_range = "index out of range [0] with length 0"

-- The request creates the logic database of the node in the proxy.
abbrev pub creates_logic_database : StorageNode → Request → Bool
creates_logic_database node (Request.sql_exec s) =
    s == create_database_sql (get key_logic_database_name node.annotations)
creates_logic_database node _ = false

module _ (sdk : Sdk) where
  module _ (node : StorageNode) (provider : StorageProvider)
      (no_cluster : node.status.cluster.status ≡ "")
      (no_instances : node.status.instances ≡ []) where
    abbrev t : Request → Bool
    t = creates_logic_database node

    datasource-Doomed : Doomed out_of_range (get_datasource_info node provider)
    unfolding get_datasource_info get_datasource_info_from_instance
    datasource-Doomed = ground (arith, eq_iff node.status.cluster.status "")

    with_server-Fated : Fated t out_of_range (λ _. ⊥) (register_with_server sdk node provider)
    unfolding register_with_server create_database attempt
    with_server-Fated = inr (
      λ _ _.
          Doomed-attempt t out_of_range (get_datasource_info node provider) _ _ datasource-Doomed,
      λ _. tt,
    )

    abbrev U : {A : Type 0} → A → Type 0
    U a = Unit

    new_server-Fated :
        (driver host : String) (port : ℕ) (user password : String)
        → Fated t out_of_range U (new_server driver host port user password)
    unfolding new_server attempt
    new_server-Fated driver host port user password = ground arith

    service-Fated :
        (namespace name : String) → Fated t out_of_range U (get_service_by_name sdk namespace name)
    unfolding get_service_by_name attempt
    service-Fated namespace name = ground arith

    first_port-Fated : (ps : List ServicePort) → Fated t out_of_range U (first_port ps)
    unfolding first_port
    first_port-Fated [] = refl
    first_port-Fated (p ∷ ps) = tt

    first_user-Fated : (us : List ComputeNodeUser) → Fated t out_of_range U (first_user us)
    unfolding first_user
    first_user-Fated [] = tt
    first_user-Fated (u ∷ us) = tt

    found_service-Fated : (o : Option ServiceObject) → Fated t out_of_range U (found_service o)
    unfolding found_service
    found_service-Fated none = tt
    found_service-Fated (some svc) = tt

    server-Fated : Fated t out_of_range U (get_shardingsphere_server sdk node)
    unfolding get_shardingsphere_server
    server-Fated =
        Fated-attempt t out_of_range U U _ _ _
          (Fated-call t out_of_range
            (get_compute_node node.namespace (get key_compute_node_name node.annotations))
            (wrap "get compute node failed") refl)
          (λ _. tt)
          λ cn _.
            Fated-attempt t out_of_range U U _ _ _ (first_user-Fated cn.server_config.users)
              (λ _. tt)
              λ user _.
                Fated-attempt t out_of_range U U _ _ _
                  (Fated-attempt t out_of_range U U _ _ _ (service-Fated _ _) (λ _. tt) (λ _ _. tt))
                  (λ _. tt)
                  λ found _.
                    Fated-attempt t out_of_range U U _ _ _ (found_service-Fated found) (λ _. tt)
                      λ svc _.
                        Fated-attempt t out_of_range U U _ _ _ (first_port-Fated svc.spec.ports)
                          (λ _. tt)
                          λ port _.
                            Fated-attempt t out_of_range U U _ _ _ (new_server-Fated _ _ _ _ _)
                              (λ _. tt) (λ _ _. tt)

    annotations-Fated : Fated t out_of_range (λ _. Unit) (validate_compute_node_annotations node)
    unfolding validate_compute_node_annotations check_annotations attempt
    annotations-Fated = ground arith

    open-Fated : Fated t out_of_range (λ _. ⊥) (open_and_register sdk node provider)
    unfolding open_and_register
    open-Fated =
        Fated-attempt t out_of_range (λ _. Unit) (λ _. ⊥) _ _ _
          (Fated-attempt t out_of_range (λ _. Unit) (λ _. Unit) (get_shardingsphere_server sdk node)
            _ _ server-Fated (λ _. tt) (λ _ _. tt))
          (λ _. tt)
          λ _ _. Fated-deferring t out_of_range (λ _. ⊥) sql_close _ refl with_server-Fated

    annotated-Fated :
        node.status.registered ≡ false
        → is_ready node.status.phase ≡ true
        → Fated t out_of_range (λ _. ⊥) (register_annotated sdk node provider)
    unfolding register_annotated
    annotated-Fated r p =
        Fated-else t out_of_range (λ _. ⊥) node.status.registered _ _ r
          (Fated-else t out_of_range (λ _. ⊥) (not (is_ready node.status.phase)) _ _ (ap not p)
            open-Fated)

    unit-Fated :
        wants_registration node ≡ true
        → Fated t out_of_range (λ _. ⊥) (register_unit sdk node provider)
    unfolding register_unit
    unit-Fated w =
        Fated-else t out_of_range (λ _. ⊥)
          (not (get key_register_enabled node.annotations == "true")) _ _ (ground arith)
          (Fated-attempt t out_of_range (λ _. Unit) (λ _. ⊥)
            (validate_compute_node_annotations node) _ _ annotations-Fated (λ _. tt)
            (λ _ _. annotated-Fated (ground arith) (ground arith)))

  -- If a node wants its registration, but its cluster has no status and it has no instance, then every
  -- run of `register_unit`, whatever the answers, ends in an error before the proxy has created the
  -- logic database, or in the panic of an index out of range, and in no other way: once the logic
  -- database is created, only the panic is left.
  pub register_without_instances :
      (env : Env) (node : StorageNode) (provider : StorageProvider)
      → wants_registration node ≡ true
      → node.status.cluster.status ≡ ""
      → node.status.instances ≡ []
      → EndsIn env
          (creates_logic_database node)
          out_of_range
          (run env (register_unit sdk node provider))
  register_without_instances env node provider w c i =
      Fated-run (creates_logic_database node) out_of_range env _ (unit-Fated node provider c i w)
