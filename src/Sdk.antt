-- ===== src/Sdk.antt =====
-- The types, constants and predicates of the modules that the operator imports: the AWS SDK
-- wrapper, CloudNativePG and the Kubernetes API machinery.
use shardingsphere_on_cloud.Prelude.{ℕ, String, Bool, List}
use shardingsphere_on_cloud.Go.{Error, Result}
use shardingsphere_on_cloud.Go.Map.{GoMap}
use shardingsphere_on_cloud.Api.StorageNode.{Endpoint, StorageNode}
use shardingsphere_on_cloud.Api.ComputeNode.{ComputeNode}
use shardingsphere_on_cloud.Api.StorageProvider.{StorageProvider}

-- `rds.DescInstance`
pub record DescInstance : Type 0 where
  pub status : String
  pub endpoint : Endpoint

-- `rds.DescCluster`
pub record DescCluster : Type 0 where
  pub status : String
  pub primary_endpoint : String
  pub reader_endpoint : String
  pub port : ℕ

-- `corev1.ServicePort`. A node port of 0 is none.
pub record ServicePort : Type 0 where
  pub name : String
  pub protocol : String
  pub port : ℕ
  pub target_port : ℕ
  pub node_port : ℕ

-- `corev1.ServiceSpec`; `rest` is the serialised form of the other fields.
pub record ServiceSpec : Type 0 where
  pub ports : List ServicePort
  pub cluster_ip : String
  pub cluster_ips : List String
  pub rest : String

-- `corev1.Service`, what the operator reads of it.
pub record ServiceObject : Type 0 where
  pub name : String
  pub namespace : String
  pub object_meta : String
  pub spec : ServiceSpec
  pub ingress : List String

-- `appsv1.Deployment` and `corev1.ConfigMap`. The spec and the data are their serialised forms,
-- which the operator only compares.
pub record DeploymentObject : Type 0 where
  pub object_meta : String
  pub labels : GoMap
  pub annotations : GoMap
  pub spec : String

pub record ConfigMapObject : Type 0 where
  pub object_meta : String
  pub labels : GoMap
  pub annotations : GoMap
  pub data_text : String

-- `corev1.PodPhase`, by its constants; `other_phase` is any other text.
pub data PodPhase : Type 0 where
  pod_pending pod_running pod_succeeded pod_failed pod_unknown other_phase : PodPhase

-- `corev1.PodConditionType`, by its constants; `other_condition` is any other text.
pub data PodConditionType : Type 0 where
  pod_scheduled pod_initialized containers_ready pod_ready other_condition : PodConditionType

-- `corev1.PodCondition`, with whether its status is `corev1.ConditionTrue`.
pub record PodCondition : Type 0 where
  pub type : PodConditionType
  pub is_true : Bool

-- `corev1.ContainerStatus`
pub record ContainerStatus : Type 0 where
  pub name : String
  pub ready : Bool

-- `corev1.Pod`, what the controller reads of it.
pub record Pod : Type 0 where
  pub phase : PodPhase
  pub conditions : List PodCondition
  pub container_statuses : List ContainerStatus

-- `cnpg.Cluster`. The spec is its serialised form, which the operator only compares. The
-- instances of each status are listed in the order in which Go's `range` visits the map.
pub record PgCluster : Type 0 where
  pub object_meta : String
  pub labels : GoMap
  pub annotations : GoMap
  pub spec : String
  pub phase : String
  pub write_service : String
  pub read_service : String
  pub instances_status : List (String × List String)

-- The constants and pure functions of those modules, a parameter of the model, with the builders of
-- pkg/kubernetes/cloudnative-pg and pkg/reconcile/computenode, which are not modelled.
pub record Sdk : Type 0 where
  pub db_instance_status_available : String
  pub db_instance_status_deleting : String
  pub db_cluster_status_available : String
  pub db_cluster_status_deleting : String
  pub phase_healthy : String
  pub pod_healthy : String
  pub is_not_found : Error → Bool
  pub is_already_exists : Error → Bool
  pub build_cluster : StorageNode → StorageProvider → PgCluster
  pub build_deployment : ComputeNode → DeploymentObject
  pub build_service : ComputeNode → ServiceObject
  pub build_config_map : ComputeNode → ConfigMapObject
  -- `metav1.LabelSelectorAsSelector` of the node's selector, as text.
  pub label_selector : ComputeNode → Result String
  -- The order in which `range` visits a map.
  pub visit : GoMap → GoMap
