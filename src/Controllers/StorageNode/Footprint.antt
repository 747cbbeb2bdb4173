-- ===== src/Controllers/StorageNode/Footprint.antt =====
-- The kinds of request that each part of the storage node controller makes, stated as the kinds
-- that it avoids: `s` marks kinds that are none of those that the part makes.
pub mod Deletion
use shardingsphere_on_cloud.Prelude.{
  ℕ, String, ◌≡◌, Bool, false, not, Option, none, some, List, [], ◌∷◌, arith,
}
use shardingsphere_on_cloud.Go.{ok, err}
use shardingsphere_on_cloud.Go.Map.{GoMap}
use shardingsphere_on_cloud.Sdk.{Sdk, ServiceObject, ServicePort}
use shardingsphere_on_cloud.Api.ComputeNode.{ComputeNodeUser}
use shardingsphere_on_cloud.Api.StorageNode.{StorageNode, StorageNodeStatus, InstanceStatus}
use shardingsphere_on_cloud.Api.StorageProvider.{StorageProvider}
use shardingsphere_on_cloud.Effects.{Rule, sql_close, ◌>>=◌, attempt}
use shardingsphere_on_cloud.Effects.Avoids.{
  avoid_rules, Avoids, Avoids-event, Avoids-attempt, Avoids-bind, Avoids-on_error, Avoids-if,
  Avoids-deferring,
}
use shardingsphere_on_cloud.Effects.Kinds.{
  Kind, kind, of_kind, reads_proxy, writes_status, records, connects, states, closes,
}
use shardingsphere_on_cloud.ShardingSphere.{
  new_server, create_database, register_storage_unit, get_rules_used, drop_rule, drop_rules,
  unregister_storage_unit,
}
use shardingsphere_on_cloud.Controllers.StorageNode.Status.{Stamps}
use shardingsphere_on_cloud.Controllers.StorageNode.Store.{write_status}
use shardingsphere_on_cloud.Controllers.StorageNode.Unit.{
  check_annotations, validate_compute_node_annotations, get_datasource_info,
  get_datasource_info_from_instance, first_user, first_port, found_service, get_service_by_name,
  get_shardingsphere_server, register_with_server, register_unit, open_and_register,
  register_annotated, open_and_unregister, unregister_with_server, unregister_unit,
}

module _ (s : Kind → Bool) (no_events : s records ≡ false) where
  check_annotations-Avoids :
      (annos : List String) (annotations : GoMap)
      → Avoids (of_kind s) (check_annotations annos annotations)
  unfolding check_annotations attempt
  check_annotations-Avoids [] annotations = tt
  check_annotations-Avoids (a ∷ annos) annotations =
      ground (arith, check_annotations-Avoids annos annotations)

  pub validate-Avoids :
      (node : StorageNode) → Avoids (of_kind s) (validate_compute_node_annotations node)
  unfolding validate_compute_node_annotations
  validate-Avoids node = check_annotations-Avoids _ _

module _ (s : Kind → Bool) (no_statements : s states ≡ false) where
  pub create_database-Avoids : (db : String) → Avoids (of_kind s) (create_database db)
  unfolding create_database attempt
  create_database-Avoids db = ground arith

  pub register_storage_unit-Avoids :
      (logic ds host : String) (port : ℕ) (db user password : String)
      → Avoids (of_kind s) (register_storage_unit logic ds host port db user password)
  unfolding register_storage_unit attempt
  register_storage_unit-Avoids logic ds host port db user password = ground arith

  drop_rule-Avoids : (r : Rule) → Avoids (of_kind s) (drop_rule r)
  unfolding drop_rule attempt
  drop_rule-Avoids r = ground arith

  pub drop_rules-Avoids : (rs : List Rule) → Avoids (of_kind s) (drop_rules rs)
  unfolding drop_rules
  drop_rules-Avoids [] = tt
  drop_rules-Avoids (r ∷ rs) = search (avoid_rules, drop_rule-Avoids, drop_rules-Avoids rs)

  pub unregister_storage_unit-Avoids :
      (db ds : String) → Avoids (of_kind s) (unregister_storage_unit db ds)
  unfolding unregister_storage_unit get_rules_used
  unregister_storage_unit-Avoids db ds = search (avoid_rules, drop_rules-Avoids) depth 8

module _ (sdk : Sdk) (s : Kind → Bool) (no_reads : s reads_proxy ≡ false)
    (no_connects : s connects ≡ false) where
  get_service_by_name-Avoids :
      (namespace name : String) → Avoids (of_kind s) (get_service_by_name sdk namespace name)
  unfolding get_service_by_name attempt
  get_service_by_name-Avoids namespace name = ground arith

  new_server-Avoids :
      (driver host : String) (port : ℕ) (user password : String)
      → Avoids (of_kind s) (new_server driver host port user password)
  unfolding new_server attempt
  new_server-Avoids driver host port user password = ground arith

  first_user-Avoids : (us : List ComputeNodeUser) → Avoids (of_kind s) (first_user us)
  unfolding first_user
  first_user-Avoids us = ground arith

  found_service-Avoids : (svc : Option ServiceObject) → Avoids (of_kind s) (found_service svc)
  unfolding found_service
  found_service-Avoids svc = ground arith

  first_port-Avoids : (ps : List ServicePort) → Avoids (of_kind s) (first_port ps)
  unfolding first_port
  first_port-Avoids ps = ground arith

  pub get_shardingsphere_server-Avoids :
      (node : StorageNode) → Avoids (of_kind s) (get_shardingsphere_server sdk node)
  unfolding get_shardingsphere_server
  get_shardingsphere_server-Avoids node =
      Avoids-bind (of_kind s) _ _ (Avoids-on_error (of_kind s) _ _ (no_reads, λ _. tt)) λ cn.
        Avoids-bind (of_kind s) (first_user cn.server_config.users) _ (first_user-Avoids _) λ user.
          Avoids-bind (of_kind s) _ _
            (Avoids-on_error (of_kind s) _ _ (get_service_by_name-Avoids _ _))
            λ found. Avoids-bind (of_kind s) (found_service found) _ (found_service-Avoids _) λ svc.
              Avoids-bind (of_kind s) (first_port svc.spec.ports) _ (first_port-Avoids _)
                λ port. Avoids-on_error (of_kind s) _ _ (new_server-Avoids _ _ _ _ _)

  -- The two operations on the storage unit.
  module _ (no_events : s records ≡ false) (no_statements : s states ≡ false)
      (no_closes : s closes ≡ false) where
    datasource-Avoids :
        (node : StorageNode) (provider : StorageProvider)
        → Avoids (of_kind s) (get_datasource_info node provider)
    unfolding get_datasource_info get_datasource_info_from_instance
    datasource-Avoids node provider = ground arith

    pub register_with_server-Avoids :
        (node : StorageNode) (provider : StorageProvider)
        → Avoids (of_kind s) (register_with_server sdk node provider)
    unfolding register_with_server
    register_with_server-Avoids node provider =
        search
          (
            avoid_rules,
            create_database-Avoids s no_statements,
            datasource-Avoids,
            register_storage_unit-Avoids s no_statements,
          )
          depth 9

    pub unregister_with_server-Avoids :
        (node : StorageNode) → Avoids (of_kind s) (unregister_with_server sdk node)
    unfolding unregister_with_server
    unregister_with_server-Avoids node =
        search (avoid_rules, unregister_storage_unit-Avoids s no_statements) depth 9

    open_and_unregister-Avoids :
        (node : StorageNode) → Avoids (of_kind s) (open_and_unregister sdk node)
    unfolding open_and_unregister
    open_and_unregister-Avoids node =
        Avoids-bind (of_kind s) _ _
          (Avoids-on_error (of_kind s) _ _ (get_shardingsphere_server-Avoids node))
          λ _.
            Avoids-deferring (of_kind s) sql_close _ no_closes (unregister_with_server-Avoids node)

    pub unregister_unit-Avoids :
        (node : StorageNode) → Avoids (of_kind s) (unregister_unit sdk node)
    unfolding unregister_unit
    unregister_unit-Avoids node =
        search (avoid_rules, validate-Avoids s no_events, open_and_unregister-Avoids)

    open_and_register-Avoids :
        (node : StorageNode) (provider : StorageProvider)
        → Avoids (of_kind s) (open_and_register sdk node provider)
    unfolding open_and_register
    open_and_register-Avoids node provider =
        Avoids-bind (of_kind s) _ _
          (Avoids-on_error (of_kind s) _ _ (get_shardingsphere_server-Avoids node))
          λ _.
            Avoids-deferring (of_kind s) sql_close _ no_closes
              (register_with_server-Avoids node provider)

    register_annotated-Avoids :
        (node : StorageNode) (provider : StorageProvider)
        → Avoids (of_kind s) (register_annotated sdk node provider)
    unfolding register_annotated
    register_annotated-Avoids node provider = search (avoid_rules, open_and_register-Avoids)

    pub register_unit-Avoids :
        (node : StorageNode) (provider : StorageProvider)
        → Avoids (of_kind s) (register_unit sdk node provider)
    unfolding register_unit
    register_unit-Avoids node provider =
        search (avoid_rules, validate-Avoids s no_events, register_annotated-Avoids)

module _ (sdk : Sdk) (now : Stamps) where
  pub write_status-Avoids :
      (s : Kind → Bool)
      → s writes_status ≡ false
      → (old_status : StorageNodeStatus) (node : StorageNode)
      → Avoids (of_kind s) (write_status sdk now old_status node)
  unfolding write_status attempt
  write_status-Avoids s h old_status node = ground arith
