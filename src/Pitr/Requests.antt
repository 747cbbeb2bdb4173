-- ===== src/Pitr/Requests.antt =====
-- What the PITR command line asks of what lies outside it: the agent servers, the proxy over
-- `database/sql`, the directory of records, the clock and the terminal. A file is named by its
-- directory and its name, which the code joins by a slash.
use shardingsphere_on_cloud.Prelude.{ℕ, String, Bool, Option, List}
use shardingsphere_on_cloud.Go.{Error, Result}
use shardingsphere_on_cloud.Pitr.Model.{
  HealthCheckIn, BackupIn, DeleteBackupIn, RestoreIn, ShowDetailIn, ShowListIn, DiskSpaceIn,
  BackupInfo, Reply,
}

-- The input of an API of an agent server, which tells the API.
pub data AgentIn : Type 0 where
  health_check_in : HealthCheckIn → AgentIn
  backup_in : BackupIn → AgentIn
  delete_backup_in : DeleteBackupIn → AgentIn
  restore_in : RestoreIn → AgentIn
  show_detail_in : ShowDetailIn → AgentIn
  show_list_in : ShowListIn → AgentIn
  disk_space_in : DiskSpaceIn → AgentIn

-- The data of an answer: the identifier of a backup, the description of one or of all, or the text
-- on the disk space.
abbrev pub Payload : AgentIn → Type 0
Payload (backup_in _) = String
Payload (show_detail_in _) = BackupInfo
Payload (show_list_in _) = List BackupInfo
Payload (disk_space_in _) = String
Payload _ = Unit {0}

-- What a query gave: the scan of its first row if `Next` found one, the answer of `Close`, and what
-- `Err` reports.
pub record Rows : Type 0 where
  pub first : Option (Result String)
  pub close : Result (Unit {0})
  pub error : Option Error

-- `os.DirEntry`
pub record Entry : Type 0 where
  pub name : String
  pub is_dir : Bool

pub data PitrRequest : Type 0 where
  db_open : (user password db_name host : String) → ℕ → PitrRequest
  db_ping : PitrRequest
  db_exec db_query : String → PitrRequest
  send : (method url : String) → AgentIn → PitrRequest
  stat mkdir read_dir : String → PitrRequest
  create_file entry_info read_file remove_file : (dir name : String) → PitrRequest
  write_file : (dir name contents : String) → PitrRequest
  rename_file : (dir from to : String) → PitrRequest
  clock : (layout : String) → PitrRequest
  new_uuid read_line : PitrRequest
  random : ℕ → PitrRequest

abbrev pub PitrResponse : PitrRequest → Type 0
PitrResponse (db_query _) = Rows
PitrResponse (send _ _ i) = Reply (Payload i)
PitrResponse (stat _) = Bool
PitrResponse (read_dir _) = List Entry
PitrResponse (entry_info _ _) = String
PitrResponse (read_file _ _) = String
PitrResponse (clock _) = String
PitrResponse new_uuid = String
PitrResponse read_line = String
PitrResponse (random _) = String
PitrResponse _ = Unit
