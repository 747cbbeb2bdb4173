-- ===== src/Pitr/Runtime.antt =====
-- What the PITR command line takes from other packages, as a parameter, and its flags.
use shardingsphere_on_cloud.Prelude.{ℕ, String, Bool, Option, List}
use shardingsphere_on_cloud.Go.{Error, Result}
use shardingsphere_on_cloud.Go.Map.{GoMap}
use shardingsphere_on_cloud.Pitr.Model.{StorageNode, ClusterInfo, LsBackup}

-- `os`, `encoding/json` and `encoding/base64`, and what the scheduler decides: `visit` is the order
-- in which `range` visits a map, `finish` the order in which the goroutines of some nodes end or
-- report, and `before_exit` those of them that end before the process does.
pub record Runtime : Type 0 where
  pub home : String
  pub is_not_exist : Error → Bool
  pub is_exist : Error → Bool
  pub error_text : Error → String
  pub base64_decode : String → Result String
  pub base64_encode : String → String
  pub marshal_cluster : ClusterInfo → Result String
  pub unmarshal_cluster : String → Result ClusterInfo
  pub unmarshal_nodes : String → Result (List (String × List StorageNode))
  pub marshal_backup : LsBackup → Result String
  -- `none` of a text without `info`.
  pub unmarshal_backup : String → Result (Option LsBackup)
  pub visit : GoMap → GoMap
  pub visit_nodes : List (String × List StorageNode) → List (String × List StorageNode)
  pub finish : List StorageNode → List StorageNode
  pub before_exit : List StorageNode → List StorageNode

-- The flags of the commands. The port of an agent server and the number of threads are what the
-- flag library parsed, within 16 and 8 bits.
pub record Flags : Type 0 where
  pub host : String
  pub port : ℕ
  pub username : String
  pub password : String
  pub backup_path : String
  pub backup_mode_str : String
  pub threads_num : ℕ
  pub agent_port : ℕ
  pub csn : String
  pub record_id : String
