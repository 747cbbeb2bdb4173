-- ===== src/Examples/Proxy.antt =====
-- The storage unit in the proxy, at concrete inputs.
use shardingsphere_on_cloud.Prelude.{◌≡◌, ◌⊎◌, refl, false, [], ◌∷◌, All}
use shardingsphere_on_cloud.Go.{ok}
use shardingsphere_on_cloud.Go.Map.{get, find}
use shardingsphere_on_cloud.Effects.{sql_exec, sql_query}
use shardingsphere_on_cloud.Effects.Run.{run, run_from, returned}
use shardingsphere_on_cloud.Effects.Avoids.{Fails}
use shardingsphere_on_cloud.Effects.Closing.{IsClosed}
use shardingsphere_on_cloud.ShardingSphere.{
  new_server, create_database, register_storage_unit, get_rules_used, drop_rule, drop_rules,
  unregister_sql, show_rules_sql, use_database_sql, unregister_storage_unit,
}
use shardingsphere_on_cloud.ShardingSphere.Statements.{dropped, unregister_statements}
use shardingsphere_on_cloud.Controllers.StorageNode.Unit.{
  register_unit, unregister_unit, check_annotations, validate_compute_node_annotations, driver_of,
  first_user, first_port, found_service, get_service_by_name, get_shardingsphere_server,
  get_datasource_info, get_datasource_info_from_instance, register_with_server, open_and_register,
  register_annotated, unregister_with_server, open_and_unregister,
}
use shardingsphere_on_cloud.Controllers.StorageNode.Registration.{
  Registers, Unregisters, register_unit-Answered, unregister_unit-Answered,
}
use shardingsphere_on_cloud.Effects.{attempt, deferring}
use shardingsphere_on_cloud.Effects.Succeeds.{Answered}
use shardingsphere_on_cloud.Go.Text.{split_first, to_lower}
use shardingsphere_on_cloud.Controllers.StorageNode.Connection.{
  is_statement, is_close, connection-IsClosed, register_guarded,
}
use shardingsphere_on_cloud.Controllers.StorageNode.Instances.{
  out_of_range, creates_logic_database, register_without_instances,
}
use shardingsphere_on_cloud.Effects.Fated.{EndsIn}
use shardingsphere_on_cloud.Examples.Data.{sdk, node, provider, rules, env}
use shardingsphere_on_cloud.Examples.Nodes.{waiting_node, empty_node, unregistered_node}

unregister_statements_example : run env (unregister_storage_unit "orders" "ds_orders") ≡ (
  returned (ok tt),
  sql_exec (unregister_sql "ds_orders")
      ∷ dropped rules
          (sql_query (show_rules_sql "ds_orders") ∷ sql_exec (use_database_sql "orders") ∷ []),
)
unregister_statements_example =
    unregister_statements env rules "orders" "ds_orders" (λ h s. refl) (λ h s. refl)

connection-IsClosed_example :
    IsClosed is_statement is_close (run env (register_unit sdk node provider)).1
    × IsClosed is_statement is_close (run env (unregister_unit sdk node)).1
connection-IsClosed_example = connection-IsClosed sdk env node provider

register_guarded_example :
    All (Fails is_statement) (run env (register_unit sdk waiting_node provider)).1
unfolding get find
register_guarded_example = register_guarded sdk env waiting_node provider refl

register_without_instances_example :
    EndsIn env
      (creates_logic_database empty_node)
      out_of_range
      (run env (register_unit sdk empty_node provider))
unfolding get find
register_without_instances_example =
    register_without_instances sdk env empty_node provider refl refl refl

register_unit-Answered_example :
    (node ≡ unregistered_node)
    ⊎ Answered env
        (Registers unregistered_node)
        (run env (register_unit sdk unregistered_node provider)).1
unfolding run run_from attempt deferring get find split_first to_lower new_server create_database
    register_storage_unit register_unit check_annotations validate_compute_node_annotations
    driver_of first_user first_port found_service get_service_by_name get_shardingsphere_server
    get_datasource_info get_datasource_info_from_instance register_with_server open_and_register
    register_annotated
register_unit-Answered_example = register_unit-Answered sdk env unregistered_node node provider refl

unregister_unit-Answered_example :
    ((unregistered_node ≡ node) × (node.status.registered ≡ false))
    ⊎ Answered env (Unregisters node) (run env (unregister_unit sdk node)).1
unfolding run run_from attempt deferring get find split_first to_lower new_server get_rules_used
    drop_rule drop_rules unregister_storage_unit unregister_unit check_annotations
    validate_compute_node_annotations driver_of first_user first_port found_service
    get_service_by_name get_shardingsphere_server unregister_with_server open_and_unregister
unregister_unit-Answered_example = unregister_unit-Answered sdk env node unregistered_node refl
