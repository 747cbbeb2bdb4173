-- ===== src/Controllers/StorageNode/Unit.antt =====
-- The storage unit of a node in a ShardingSphere proxy: `registerStorageUnit`,
-- `unregisterStorageUnit` and what they call in pkg/controllers/storage_node_controller.go.
use shardingsphere_on_cloud.Prelude.{
  ℕ, String, ◌<>◌, true, false, Option, none, some, List, [], ◌∷◌, ◌==◌, not, if◌then◌else◌,
}
use shardingsphere_on_cloud.Go.{text, wrap}
use shardingsphere_on_cloud.Go.Map.{GoMap, get}
use shardingsphere_on_cloud.Go.Text.{replace_all, split_first, to_lower}
use shardingsphere_on_cloud.Sdk.{Sdk, ServiceObject, ServicePort}
use shardingsphere_on_cloud.Api.StorageNode.{StorageNode, InstanceStatus, is_ready}
use shardingsphere_on_cloud.Api.StorageProvider.{
  StorageProvider, annotations_instance_db_name, annotations_master_username,
  annotations_master_user_password,
}
use shardingsphere_on_cloud.Api.ComputeNode.{ComputeNode, ComputeNodeUser}
use shardingsphere_on_cloud.Effects.{
  Prog, attempt, panic, pure, fail, call, event, on_error, deferring, ◌>>=◌, ◌>>◌, get_compute_node,
  get_service, sql_close,
}
use shardingsphere_on_cloud.ShardingSphere.{
  new_server, create_database, register_storage_unit, unregister_storage_unit,
}

abbrev pub key_register_enabled : String
key_register_enabled = "shardingsphere.apache.org/register-storage-unit-enabled"

abbrev pub key_compute_node_name : String
key_compute_node_name = "shardingsphere.apache.org/compute-node-name"

abbrev pub key_logic_database_name : String
key_logic_database_name = "shardingsphere.apache.org/logic-database-name"

abbrev pub protocol_type : String
protocol_type = "proxy-frontend-database-protocol-type"

-- The loop of `validateComputeNodeAnnotations`
unfoldable pub check_annotations : List String → GoMap → Prog (Unit {0})
check_annotations [] annotations = pure tt
check_annotations (anno ∷ rest) annotations =
    if get anno annotations == ""
    then (do event "RegisterChecking"; fail (text ("annotation " <> (anno <> " is required"))))
    else check_annotations rest annotations

abbrev pub required_annotations : List String
required_annotations =
    key_logic_database_name ∷ annotations_instance_db_name ∷ key_compute_node_name ∷ []

-- `validateComputeNodeAnnotations`
unfoldable pub validate_compute_node_annotations : StorageNode → Prog (Unit {0})
validate_compute_node_annotations node = check_annotations required_annotations node.annotations

-- `getDSName`
unfoldable pub get_ds_name : StorageNode → String
get_ds_name node = "ds_" <> replace_all node.name "-" "_"

-- `host, port, username, password`
pub record Datasource : Type 0 where
  pub host : String
  pub port : ℕ
  pub username : String
  pub password : String

abbrev or_parameter : String → String → GoMap → String
or_parameter annotation key parameters = if annotation == "" then get key parameters else annotation

abbrev pub datasource_at : String → ℕ → StorageNode → StorageProvider → Datasource
datasource_at host port node provider = record {
  host = host;
  port = port;
  username =
      or_parameter (get annotations_master_username node.annotations) "masterUsername"
        provider.parameters;
  password =
      or_parameter (get annotations_master_user_password node.annotations) "masterUserPassword"
        provider.parameters;
}

-- `getDatasourceInfoFromInstance` reads the first instance, and panics where there is none.
unfoldable pub get_datasource_info_from_instance :
    List InstanceStatus → StorageNode → StorageProvider → Prog Datasource
get_datasource_info_from_instance [] node provider = panic "index out of range [0] with length 0"
get_datasource_info_from_instance (ins ∷ _) node provider =
    pure (datasource_at ins.endpoint.address ins.endpoint.port node provider)

-- `getDatasourceInfoFromCluster`
unfoldable pub get_datasource_info_from_cluster : StorageNode → StorageProvider → Datasource
get_datasource_info_from_cluster node provider =
    datasource_at node.status.cluster.primary_endpoint.address
      node.status.cluster.primary_endpoint.port node provider

unfoldable pub get_datasource_info : StorageNode → StorageProvider → Prog Datasource
get_datasource_info node provider =
    if node.status.cluster.status == ""
    then get_datasource_info_from_instance node.status.instances node provider
    else pure (get_datasource_info_from_cluster node provider)

-- `driver, ok := serverConf.Props[…]`, "mysql" where there is none
unfoldable pub driver_of : ComputeNode → String
driver_of cn =
    let driver = get protocol_type cn.server_config.props in
    to_lower (if driver == "" then "mysql" else driver)

unfoldable pub first_user : List ComputeNodeUser → Prog ComputeNodeUser
first_user [] = fail (text "no user in compute node")
first_user (u ∷ _) = pure u

-- `svc.Spec.Ports[0].Port`
unfoldable pub first_port : List ServicePort → Prog ℕ
first_port [] = panic "index out of range [0] with length 0"
first_port (p ∷ _) = pure p.port

unfoldable pub found_service : Option ServiceObject → Prog ServiceObject
found_service none = fail (text "get service failed")
found_service (some svc) = pure svc

module _ (sdk : Sdk) where
  -- `GetByNamespacedName` of pkg/kubernetes/service/service.go: not found is no error.
  unfoldable pub get_service_by_name : String → String → Prog (Option ServiceObject)
  get_service_by_name namespace name =
      attempt (call (get_service namespace name))
        (λ e. if sdk.is_not_found e then pure none else fail e) (λ svc. pure (some svc))

  -- `getShardingsphereServer`
  unfoldable pub get_shardingsphere_server : StorageNode → Prog (Unit {0})
  get_shardingsphere_server node = do
    let name = get key_compute_node_name node.annotations
    cn ← on_error (wrap "get compute node failed") (call (get_compute_node node.namespace name))
    user ← first_user cn.server_config.users
    found ← on_error (wrap "get service failed") (get_service_by_name node.namespace name)
    svc ← found_service found
    port ← first_port svc.spec.ports
    on_error (wrap "new shardingsphere server failed") (
        new_server (driver_of cn) (svc.name <> ("." <> svc.namespace)) port
          (split_first user.user "@") user.password)

  -- What `registerStorageUnit` does with the server that it opened.
  unfoldable pub register_with_server : StorageNode → StorageProvider → Prog StorageNode
  register_with_server node provider = do
    let logic_db = get key_logic_database_name node.annotations
    on_error (wrap "create database failed") (create_database logic_db)
    event "LogicDatabaseCreated"
    d ← get_datasource_info node provider
    on_error (wrap "register storage node failed") (
        register_storage_unit logic_db (get_ds_name node) d.host d.port
          (get annotations_instance_db_name node.annotations) d.username d.password)
    event "StorageUnitRegistered"
    pure (record node { status = record node.status { registered = true } })

  -- The server is opened, and closed when the rest returns or unwinds.
  unfoldable pub open_and_register : StorageNode → StorageProvider → Prog StorageNode
  open_and_register node provider = do
    on_error (wrap "getShardingsphereServer failed") (get_shardingsphere_server node)
    deferring sql_close (register_with_server node provider)

  -- `registerStorageUnit` after the annotations: a unit that is registered already, or a node that
  -- is not ready, is left alone.
  unfoldable pub register_annotated : StorageNode → StorageProvider → Prog StorageNode
  register_annotated node provider =
      if node.status.registered
      then pure node
      else if not (is_ready node.status.phase)
      then (do event "RegisterWaiting"; pure node)
      else open_and_register node provider

  -- `registerStorageUnit`
  unfoldable pub register_unit : StorageNode → StorageProvider → Prog StorageNode
  register_unit node provider =
      if not (get key_register_enabled node.annotations == "true")
      then pure node
      else (validate_compute_node_annotations node >> register_annotated node provider)

  -- What `unregisterStorageUnit` does with the server that it opened.
  unfoldable pub unregister_with_server : StorageNode → Prog StorageNode
  unregister_with_server node = do
    on_error (wrap "unregister storage unit failed")
        (unregister_storage_unit (get key_logic_database_name node.annotations) (get_ds_name node))
    event "StorageUnitUnRegistered"
    pure (record node { status = record node.status { registered = false } })

  unfoldable pub open_and_unregister : StorageNode → Prog StorageNode
  open_and_unregister node = do
    on_error (wrap "getShardingsphereServer failed") (get_shardingsphere_server node)
    deferring sql_close (unregister_with_server node)

  -- `unregisterStorageUnit`
  unfoldable pub unregister_unit : StorageNode → Prog StorageNode
  unregister_unit node =
      if not node.status.registered
      then pure node
      else (validate_compute_node_annotations node >> open_and_unregister node)
