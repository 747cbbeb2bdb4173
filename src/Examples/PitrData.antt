-- ===== src/Examples/PitrData.antt =====
-- A cluster of two openGauss nodes, the record of its backup, and an environment in which every
-- request succeeds.
use shardingsphere_on_cloud.Prelude.{String, true, false, none, some, [], ◌∷◌}
use shardingsphere_on_cloud.Go.{Result, ok, err, external}
use shardingsphere_on_cloud.Go.Number.{pos}
use shardingsphere_on_cloud.Effects.{Request, Response}
use shardingsphere_on_cloud.Effects.Run.{Env}
use shardingsphere_on_cloud.Pitr.Model.{
  completed, StorageNode, DataNode, LsBackup, ClusterInfo, BackupInfo,
}
use shardingsphere_on_cloud.Pitr.Requests.{AgentIn, Payload, PitrRequest, PitrResponse}
use shardingsphere_on_cloud.Pitr.Runtime.{Runtime, Flags}

abbrev pub node : StorageNode
node = record {
  ip = "10.0.0.1";
  port = 5432;
  username = "gauss";
  password = "secret";
  database = "orders";
  remark = "";
}

abbrev pub other_node : StorageNode
other_node = record node { ip = "10.0.0.2" }

abbrev pub data_node : DataNode
data_node = record {
  ip = "10.0.0.1";
  port = 5432;
  status = completed;
  backup_id = "B1";
  start_time = "";
  end_time = "";
}

abbrev cluster : ClusterInfo
cluster = record {
  meta_data = record { databases = ("orders", "") ∷ []; props = ""; rules = "" };
  snapshot_info = none;
}

abbrev pub backup_record : LsBackup
backup_record = record {
  info = record {
    id = "1";
    csn = "7";
    backup_mode = "FULL";
    start_time = "";
    end_time = "";
    file_name = "1.json";
  };
  dn_list = data_node ∷ record data_node { ip = "10.0.0.2"; backup_id = "B2" } ∷ [];
  ss_backup = record {
    status = completed;
    cluster_info = some cluster;
    storage_nodes = node ∷ other_node ∷ [];
  };
}

abbrev pub rt : Runtime
rt = record {
  home = "/home/gauss";
  is_not_exist = λ e. false;
  is_exist = λ e. false;
  error_text = λ e. "failed";
  base64_decode = λ s. ok s;
  base64_encode = λ s. s;
  marshal_cluster = λ c. ok "{}";
  unmarshal_cluster = λ s. ok cluster;
  unmarshal_nodes = λ s. ok (("orders", node ∷ other_node ∷ []) ∷ []);
  marshal_backup = λ b. ok "{}";
  unmarshal_backup = λ s. ok (some backup_record);
  visit = λ m. m;
  visit_nodes = λ m. m;
  finish = λ sns. sns;
  before_exit = λ sns. sns;
}

abbrev pub flags : Flags
flags = record {
  host = "proxy";
  port = 3307;
  username = "root";
  password = "root";
  backup_path = "/backup";
  backup_mode_str = "FULL";
  threads_num = 1;
  agent_port = 443;
  csn = "";
  record_id = "1";
}

abbrev pub info : BackupInfo
info = record {
  id = "B1";
  path = "/backup";
  mode = "FULL";
  instance_name = "ins-default-ss";
  start_time = "";
  end_time = "";
  status = completed;
}

abbrev payload_of : (i : AgentIn) → Payload i
payload_of (AgentIn.health_check_in _) = tt
payload_of (AgentIn.backup_in _) = "B1"
payload_of (AgentIn.delete_backup_in _) = tt
payload_of (AgentIn.restore_in _) = tt
payload_of (AgentIn.show_detail_in _) = info
payload_of (AgentIn.show_list_in _) = info ∷ []
payload_of (AgentIn.disk_space_in _) = "10G"

-- `line` is what the user answers to a prompt.
abbrev pitr_answer : String → (q : PitrRequest) → Result (PitrResponse q)
pitr_answer line (PitrRequest.db_open _ _ _ _ _) = ok tt
pitr_answer line PitrRequest.db_ping = ok tt
pitr_answer line (PitrRequest.db_exec _) = ok tt
pitr_answer line (PitrRequest.db_query _) =
    ok (record { first = some (ok "{}"); close = ok tt; error = none })
pitr_answer line (PitrRequest.send _ _ i) =
    ok (record { code = pos 0; msg = ""; payload = payload_of i })
pitr_answer line (PitrRequest.stat _) = ok true
pitr_answer line (PitrRequest.mkdir _) = ok tt
pitr_answer line (PitrRequest.read_dir _) = ok (record { name = "1.json"; is_dir = false } ∷ [])
pitr_answer line (PitrRequest.create_file _ _) = ok tt
pitr_answer line (PitrRequest.entry_info _ name) = ok name
pitr_answer line (PitrRequest.read_file _ _) = ok "{}"
pitr_answer line (PitrRequest.remove_file _ _) = ok tt
pitr_answer line (PitrRequest.write_file _ _ _) = ok tt
pitr_answer line (PitrRequest.rename_file _ _ _) = ok tt
pitr_answer line (PitrRequest.clock _) = ok "20230101000000"
pitr_answer line PitrRequest.new_uuid = ok "1"
pitr_answer line PitrRequest.read_line = ok line
pitr_answer line (PitrRequest.random _) = ok "abcdefgh"

abbrev answer : String → (q : Request) → Result (Response q)
answer line (Request.pitr q) = pitr_answer line q
answer line _ = err (external "no operator runs here")

abbrev pub env : String → Env
env line h q = answer line q
