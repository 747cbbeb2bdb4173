-- ===== src/Examples/Data.antt =====
-- A storage node of one RDS instance, its provider, and an environment in which every call succeeds
-- but the reading of a CloudNativePG cluster.
use shardingsphere_on_cloud.Prelude.{true, false, none, some, List, [], ◌∷◌}
use shardingsphere_on_cloud.Go.{ok, err, external, Result}
use shardingsphere_on_cloud.Go.Map.{GoMap}
use shardingsphere_on_cloud.Sdk.{Sdk, DescInstance, DescCluster}
use shardingsphere_on_cloud.Api.StorageNode.{
  ready, deleting, StorageNode, StorageNodeStatus, Condition, condition_true, available_type,
  cluster_ready_type,
}
use shardingsphere_on_cloud.Api.StorageProvider.{
  StorageProvider, aws_rds_instance, cloud_native_pg, delete,
}
use shardingsphere_on_cloud.Effects.{Request, Response, Rule}
use shardingsphere_on_cloud.Effects.Run.{Env}
use shardingsphere_on_cloud.Controllers.StorageNode.Status.{Stamps}
use shardingsphere_on_cloud.Controllers.StorageNode.Store.{Credentials}
use shardingsphere_on_cloud.Examples.Compute.{pod, compute_node, service, deployment, config_map}

abbrev pub sdk : Sdk
sdk = record {
  db_instance_status_available = "available";
  db_instance_status_deleting = "deleting";
  db_cluster_status_available = "available";
  db_cluster_status_deleting = "deleting";
  phase_healthy = "Cluster in healthy state";
  pod_healthy = "healthy";
  is_not_found = λ e. elim e [ external m ↦ true | _ ↦ false ];
  is_already_exists = λ _. false;
  build_cluster = λ node provider. record {
    object_meta = "";
    labels = [];
    annotations = [];
    spec = "instances: 1";
    phase = "";
    write_service = "";
    read_service = "";
    instances_status = [];
  };
  build_deployment = λ cn. deployment;
  build_service = λ cn. service;
  build_config_map = λ cn. config_map;
  label_selector = λ cn. ok "app=proxy";
  visit = λ m. m;
}

abbrev pub now : Stamps
now = record { cluster_ready = 1; available = 2; registered = 3 }

abbrev pub serving_status : StorageNodeStatus
serving_status = record {
  observed_generation = 0;
  phase = ready;
  conditions = [];
  cluster = record {
    status = "";
    primary_endpoint = record { address = ""; port = 0 };
    reader_endpoints = [];
    properties = [];
  };
  instances =
      record {
        status = "available";
        endpoint = record { address = "db.example.com"; port = 3306 };
        properties = [];
      }
      ∷ [];
  registered = true;
}

-- The conditions `Available` and `ClusterReady`, from an earlier reconciliation.
abbrev pub conditions : List Condition
conditions =
    record {
      type = available_type;
      status = condition_true;
      last_update_time = 0;
      reason = "";
      message = "";
    }
    ∷ record {
      type = cluster_ready_type;
      status = condition_true;
      last_update_time = 0;
      reason = "";
      message = "";
    }
    ∷ []

-- A node that is being deleted and has no instance left.
abbrev pub leaving_status : StorageNodeStatus
leaving_status = record serving_status { phase = deleting; instances = []; conditions = conditions }

abbrev pub node : StorageNode
node = record {
  name = "orders-db";
  namespace = "default";
  annotations =
      ("shardingsphere.apache.org/register-storage-unit-enabled", "true")
      ∷ ("shardingsphere.apache.org/compute-node-name", "proxy")
      ∷ ("shardingsphere.apache.org/logic-database-name", "orders")
      ∷ ("storageproviders.shardingsphere.apache.org/instance-db-name", "orders")
      ∷ ("storageproviders.shardingsphere.apache.org/instance-identifier", "orders-1")
      ∷ [];
  finalizers = "shardingsphere.apache.org/finalizer" ∷ [];
  deletion_timestamp_is_zero = false;
  spec = record { storage_provider_name = "rds"; schema = ""; replicas = 1 };
  status = serving_status;
}

abbrev pub provider : StorageProvider
provider = record {
  name = "rds";
  provisioner = aws_rds_instance;
  parameters =
      ("engine", "mysql")
      ∷ ("engineVersion", "8.0")
      ∷ ("instanceClass", "db.t3.micro")
      ∷ ("masterUsername", "root")
      ∷ ("masterUserPassword", "secret-password")
      ∷ ("allocatedStorage", "20")
      ∷ [];
  reclaim_policy = delete;
}

abbrev pub pg_provider : StorageProvider
pg_provider = record provider { provisioner = cloud_native_pg }

abbrev pub instance : DescInstance
instance = record {
  status = "available";
  endpoint = record { address = "db.example.com"; port = 3306 };
}

abbrev cluster : DescCluster
cluster = record {
  status = "available";
  primary_endpoint = "primary.example.com";
  reader_endpoint = "reader.example.com";
  port = 3306;
}

abbrev pub rules : List Rule
rules = record { type = "sharding"; name = "t_order" } ∷ []

abbrev answer : (q : Request) → Result (Response q)
answer (Request.get_storage_node _ _) = ok node
answer (Request.get_compute_node _ _) = ok compute_node
answer (Request.get_service _ _) = ok service
answer (Request.get_deployment _ _) = ok deployment
answer (Request.get_config_map _ _) = ok config_map
answer (Request.list_pods _ _) = ok (pod ∷ [])
answer (Request.create_deployment _) = ok tt
answer (Request.update_deployment _) = ok tt
answer (Request.create_service _) = ok tt
answer (Request.update_service _) = ok tt
answer (Request.create_config_map _) = ok tt
answer (Request.update_config_map _) = ok tt
answer (Request.update_compute_node _) = ok tt
answer (Request.update_compute_node_status _) = ok tt
answer (Request.get_pg_cluster _ _) = err (external "not found")
answer (Request.get_storage_provider _) = ok provider
answer (Request.update_storage_node n) = ok n
answer (Request.update_storage_node_status n) = ok n
answer (Request.create_pg_cluster _) = ok tt
answer (Request.update_pg_cluster _) = ok tt
answer (Request.delete_pg_cluster _) = ok tt
answer (Request.record_event _) = ok tt
answer (Request.describe_instance _) = ok (some instance)
answer (Request.describe_cluster _) = ok (some cluster)
answer (Request.describe_aurora _) = ok none
answer (Request.describe_instances _) = ok []
answer (Request.create_instance _) = ok tt
answer (Request.create_cluster _) = ok tt
answer (Request.create_aurora _) = ok tt
answer (Request.delete_instance _ _ _) = ok tt
answer (Request.delete_aurora _ _) = ok tt
answer (Request.delete_cluster _ _ _) = ok tt
answer (Request.sql_open _ _) = ok tt
answer Request.sql_ping = ok tt
answer Request.sql_close = ok tt
answer (Request.sql_exec _) = ok tt
answer (Request.sql_query _) = ok rules
answer (Request.rand_int _) = ok 3
answer (Request.random_string _) = ok "abcd"
answer (Request.random_custom _ _) = ok "abcdefghijk"
answer (Request.pitr _) = err (external "no command line runs here")
answer (Request.host _) = err (external "no agent runs here")

abbrev pub env : Env
env h q = answer q

-- AWS has no instance.
abbrev gone : (q : Request) → Result (Response q)
gone (Request.describe_instance _) = ok none
gone q = answer q

abbrev pub gone_env : Env
gone_env h q = gone q

abbrev pub credentials : Credentials
credentials = record {
  aws_region = "eu-west-1";
  aws_access_key_id = "id";
  aws_secret_access_key = "key";
}

abbrev pub cluster_parameters : GoMap
cluster_parameters =
    ("engine", "mysql")
    ∷ ("engineVersion", "8.0")
    ∷ ("instanceClass", "db.m5d.large")
    ∷ ("masterUsername", "root")
    ∷ ("masterUserPassword", "secret-password")
    ∷ ("allocatedStorage", "100")
    ∷ ("iops", "1000")
    ∷ ("storageType", "io1")
    ∷ []
