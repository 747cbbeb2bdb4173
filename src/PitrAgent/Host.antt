-- ===== src/PitrAgent/Host.antt =====
-- solutions/opengauss/pitr/agent/internal/pkg/model/backup.go, as far as the agent reads it, and
-- what the agent takes from its start and from packages outside the repository.
use shardingsphere_on_cloud.Prelude.{String, Option, List}
use shardingsphere_on_cloud.Go.{Error, Result}

-- `Backup`, as `gs_probackup show` prints it
pub record Backup : Type 0 where
  pub id : String
  pub backup_mode : String
  pub start_time : String
  pub end_time : String
  pub status : String

pub record BackupList : Type 0 where
  pub instance_name : String
  pub list : List Backup

-- `shell` and `pg_data` are those of the agent's start, `env_shell` is `SHELL`, `lookup_env` is
-- `os.LookupEnv`, `error_text` is the method `Error`, `find_backup_id` is the match of regexp2 for
-- `(?<=backup ID:\s+)\w+(?=,)`, and `unmarshal_lists` is `json.Unmarshal`.
pub record Host : Type 0 where
  pub shell : String
  pub pg_data : String
  pub env_shell : String
  pub lookup_env : String → Option String
  pub error_text : Error → String
  pub find_backup_id : String → Result (Option String)
  pub unmarshal_lists : String → Result (List BackupList)
