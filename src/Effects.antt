-- ===== src/Effects.antt =====
-- Programs: trees of requests to what lies outside them. A request of the operator is a call of the
-- Kubernetes API, of the AWS SDK, of `database/sql`, of the random source or of the event recorder;
-- those of the PITR command line are in Pitr/Requests, those of its agent in PitrAgent/Requests. A program goes on from the answer.
pub mod Run
pub mod Avoids
pub mod Performs
pub mod Kinds
pub mod Never
pub mod Orderly
pub mod Fated
pub mod Succeeds
pub mod Along
pub mod Only
pub mod Closing
pub mod Releasing
pub mod Guards
use shardingsphere_on_cloud.Prelude.{ℕ, String, Bool, Option, List}
use shardingsphere_on_cloud.Go.{Error, Result, ok, err}
use shardingsphere_on_cloud.Go.Map.{GoMap}
use shardingsphere_on_cloud.Go.Number.{ℤ}
use shardingsphere_on_cloud.Api.StorageNode.{StorageNode}
use shardingsphere_on_cloud.Api.StorageProvider.{StorageProvider}
use shardingsphere_on_cloud.Api.ComputeNode.{ComputeNode}
use shardingsphere_on_cloud.Pitr.Requests.{PitrRequest, PitrResponse}
use shardingsphere_on_cloud.PitrAgent.Requests.{HostRequest, HostResponse}
use shardingsphere_on_cloud.Sdk.{
  DescInstance, DescCluster, ServiceObject, PgCluster, DeploymentObject, ConfigMapObject, Pod,
}

-- What the setters of `rds.Instance` were given before `Create`.
pub record InstanceParams : Type 0 where
  pub engine : String
  pub engine_version : String
  pub db_instance_class : String
  pub db_instance_identifier : String
  pub master_username : String
  pub master_user_password : String
  pub allocated_storage : ℤ
  pub db_name : Option String

-- What the setters of `rds.Cluster` were given before `Create`.
pub record ClusterParams : Type 0 where
  pub engine : String
  pub engine_version : String
  pub db_cluster_identifier : String
  pub master_username : String
  pub master_user_password : String
  pub allocated_storage : ℤ
  pub db_cluster_instance_class : String
  pub iops : ℤ
  pub storage_type : String
  pub database_name : Option String
  pub publicly_accessible : Bool
  pub vpc_security_group_ids : Option String

-- What the setters of `rds.Aurora` were given before `Create`.
pub record AuroraParams : Type 0 where
  pub db_instance_class : String
  pub engine : String
  pub engine_version : String
  pub db_cluster_identifier : String
  pub master_username : String
  pub master_user_password : String
  pub instance_number : ℕ
  pub db_name : Option String
  pub publicly_accessible : Bool
  pub vpc_security_group_ids : Option String

pub record Rule : Type 0 where
  pub type : String
  pub name : String

pub data Request : Type 0 where
  get_storage_node get_compute_node get_service get_pg_cluster : String → String → Request
  get_storage_provider : String → Request
  update_storage_node update_storage_node_status : StorageNode → Request
  create_pg_cluster update_pg_cluster delete_pg_cluster : PgCluster → Request
  get_deployment get_config_map : String → String → Request
  list_pods : String → GoMap → Request
  create_deployment update_deployment : DeploymentObject → Request
  create_service update_service : ServiceObject → Request
  create_config_map update_config_map : ConfigMapObject → Request
  update_compute_node update_compute_node_status : ComputeNode → Request
  record_event : String → Request
  describe_instance describe_cluster describe_aurora : String → Request
  describe_instances : List (String × List String) → Request
  create_instance : InstanceParams → Request
  create_cluster : ClusterParams → Request
  create_aurora : AuroraParams → Request
  delete_instance : String → (delete_automate_backups skip_final_snapshot : Bool) → Request
  delete_aurora : String → Option (Bool × Bool) → Request
  delete_cluster :
      String → (final_snapshot : Option String) (skip_final_snapshot : Option Bool) → Request
  sql_open : (driver data_source_name : String) → Request
  sql_ping sql_close : Request
  sql_exec sql_query : String → Request
  rand_int : ℕ → Request
  random_string : ℕ → Request
  random_custom : ℕ → String → Request
  pitr : PitrRequest → Request
  host : HostRequest → Request

-- The value of a successful answer. An update answers with the object as the server stored it.
abbrev pub Response : Request → Type 0
Response (get_storage_node _ _) = StorageNode
Response (get_compute_node _ _) = ComputeNode
Response (get_service _ _) = ServiceObject
Response (get_pg_cluster _ _) = PgCluster
Response (get_storage_provider _) = StorageProvider
Response (get_deployment _ _) = DeploymentObject
Response (get_config_map _ _) = ConfigMapObject
Response (list_pods _ _) = List Pod
Response (update_storage_node _) = StorageNode
Response (update_storage_node_status _) = StorageNode
Response (describe_instance _) = Option DescInstance
Response (describe_cluster _) = Option DescCluster
Response (describe_aurora _) = Option DescCluster
Response (describe_instances _) = List DescInstance
Response (sql_query _) = List Rule
Response (rand_int _) = ℕ
Response (random_string _) = String
Response (random_custom _ _) = String
Response (pitr q) = PitrResponse q
Response (host q) = HostResponse q
Response _ = Unit

-- `done` returns a value or an error, `panic` unwinds with a message, and `ask` makes a request.
pub data Prog (A : Type 0) : Type 0 where
  done : Result A → Prog A
  panic : String → Prog A
  ask : (q : Request) → (Result (Response q) → Prog A) → Prog A

abbrev pub pure : {A : Type 0} → A → Prog A
pure a = done (ok a)

abbrev pub fail : {A : Type 0} → Error → Prog A
fail e = done (err e)

-- `if err != nil { return … }` after a call: the error goes to `h`, the value to `k`.
unfoldable pub attempt : {A B : Type 0} → Prog A → (Error → Prog B) → (A → Prog B) → Prog B
attempt (done (ok a)) h k = k a
attempt (done (err e)) h k = h e
attempt (panic s) h k = panic s
attempt (ask q f) h k = ask q (λ r. attempt (f r) h k)

-- `if err != nil { return err }`
infixl 5 ◌>>=◌ ◌>>◌
abbrev pub ◌>>=◌ : {A B : Type 0} → Prog A → (A → Prog B) → Prog B
m >>= k = attempt m (λ e. done (err e)) k

abbrev pub ◌>>◌ : {A B : Type 0} → Prog A → Prog B → Prog B
m >> n = m >>= λ _. n

-- `if err != nil { return fmt.Errorf(…, err) }` at the end of a function.
abbrev pub on_error : {A : Type 0} → (Error → Error) → Prog A → Prog A
on_error f m = attempt m (λ e. done (err (f e))) (λ a. done (ok a))

abbrev pub call : (q : Request) → Prog (Response q)
call q = ask q (λ r. done r)

-- `r.Recorder.Event`, which gives no answer.
abbrev pub event : String → Prog (Unit {0})
event reason = ask (record_event reason) (λ _. done (ok tt))

-- `defer`: the request is made when the program returns or unwinds, and its answer is dropped.
unfoldable pub deferring : {A : Type 0} → Request → Prog A → Prog A
deferring q (done r) = ask q (λ _. done r)
deferring q (panic s) = ask q (λ _. panic s)
deferring q (ask p k) = ask p (λ r. deferring q (k r))
