-- ===== src/Effects/Kinds.antt =====
-- The kinds of request, and the programs that keep to some of them.
use shardingsphere_on_cloud.Prelude.{Bool}
use shardingsphere_on_cloud.Effects.{Request}

pub data Kind : Type 0 where
  reads_workload writes_workload writes_service writes_compute_node : Kind
  reads_node reads_proxy writes_node writes_status records : Kind
  reads_pg writes_pg deletes_pg : Kind
  describes creates deletes : Kind
  connects states closes : Kind
  randomises recovers administers : Kind

abbrev pub kind : Request → Kind
kind (Request.get_storage_node _ _) = reads_node
kind (Request.get_storage_provider _) = reads_node
kind (Request.get_compute_node _ _) = reads_proxy
kind (Request.get_service _ _) = reads_proxy
kind (Request.get_pg_cluster _ _) = reads_pg
kind (Request.update_storage_node _) = writes_node
kind (Request.update_storage_node_status _) = writes_status
kind (Request.create_pg_cluster _) = writes_pg
kind (Request.update_pg_cluster _) = writes_pg
kind (Request.delete_pg_cluster _) = deletes_pg
kind (Request.get_deployment _ _) = reads_workload
kind (Request.get_config_map _ _) = reads_workload
kind (Request.list_pods _ _) = reads_workload
kind (Request.create_deployment _) = writes_workload
kind (Request.update_deployment _) = writes_workload
kind (Request.create_service _) = writes_service
kind (Request.update_service _) = writes_service
kind (Request.create_config_map _) = writes_workload
kind (Request.update_config_map _) = writes_workload
kind (Request.update_compute_node _) = writes_compute_node
kind (Request.update_compute_node_status _) = writes_compute_node
kind (Request.record_event _) = records
kind (Request.describe_instance _) = describes
kind (Request.describe_cluster _) = describes
kind (Request.describe_aurora _) = describes
kind (Request.describe_instances _) = describes
kind (Request.create_instance _) = creates
kind (Request.create_cluster _) = creates
kind (Request.create_aurora _) = creates
kind (Request.delete_instance _ _ _) = deletes
kind (Request.delete_aurora _ _) = deletes
kind (Request.delete_cluster _ _ _) = deletes
kind (Request.sql_open _ _) = connects
kind Request.sql_ping = connects
kind Request.sql_close = closes
kind (Request.sql_exec _) = states
kind (Request.sql_query _) = states
kind (Request.rand_int _) = randomises
kind (Request.random_string _) = randomises
kind (Request.random_custom _ _) = randomises
kind (Request.pitr _) = recovers
kind (Request.host _) = administers

-- The request is of a kind that `s` marks.
abbrev pub of_kind : (Kind → Bool) → Request → Bool
of_kind s q = s (kind q)
