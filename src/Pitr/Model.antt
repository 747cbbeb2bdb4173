-- ===== src/Pitr/Model.antt =====
-- solutions/opengauss/pitr/cli/internal/pkg/model: the record of a backup, and what the agent
-- servers are sent and answer.
use shardingsphere_on_cloud.Prelude.{ℕ, String, Option, List}
use shardingsphere_on_cloud.Go.Map.{GoMap}
use shardingsphere_on_cloud.Go.Number.{ℤ}

abbrev pub BackupStatus : Type 0
BackupStatus = String

abbrev pub waiting : BackupStatus
waiting = "Waiting"

abbrev pub running : BackupStatus
running = "Running"

abbrev pub completed : BackupStatus
completed = "Completed"

abbrev pub failed : BackupStatus
failed = "Failed"

abbrev pub check_error : BackupStatus
check_error = "CheckError"

abbrev pub canceled : BackupStatus
canceled = "Canceled"

pub record BackupMetaInfo : Type 0 where
  pub id : String
  pub csn : String
  pub backup_mode : String
  pub start_time : String
  pub end_time : String
  pub file_name : String

pub record DataNode : Type 0 where
  pub ip : String
  pub port : ℕ
  pub status : BackupStatus
  pub backup_id : String
  pub start_time : String
  pub end_time : String

pub record StorageNode : Type 0 where
  pub ip : String
  pub port : ℕ
  pub username : String
  pub password : String
  pub database : String
  pub remark : String

pub record MetaData : Type 0 where
  pub databases : GoMap
  pub props : String
  pub rules : String

pub record SnapshotInfo : Type 0 where
  pub csn : String
  pub create_time : String

pub record ClusterInfo : Type 0 where
  pub meta_data : MetaData
  pub snapshot_info : Option SnapshotInfo

pub record SsBackup : Type 0 where
  pub status : BackupStatus
  pub cluster_info : Option ClusterInfo
  pub storage_nodes : List StorageNode

pub record LsBackup : Type 0 where
  pub info : BackupMetaInfo
  pub dn_list : List DataNode
  pub ss_backup : SsBackup

-- `HealthCheckIn`, which is the first fields of every other input of an agent server.
pub record HealthCheckIn : Type 0 where
  pub db_port : ℕ
  pub db_name : String
  pub username : String
  pub password : String

pub record BackupIn : Type 0 where
  pub db : HealthCheckIn
  pub dn_backup_path : String
  pub dn_threads_num : ℕ
  pub dn_backup_mode : String
  pub instance_name : String

pub record DeleteBackupIn : Type 0 where
  pub db : HealthCheckIn
  pub dn_backup_path : String
  pub backup_id : String
  pub instance_name : String

pub record RestoreIn : Type 0 where
  pub db : HealthCheckIn
  pub instance_name : String
  pub dn_backup_path : String
  pub dn_backup_id : String
  pub dn_threads_num : ℕ

pub record ShowDetailIn : Type 0 where
  pub db : HealthCheckIn
  pub dn_backup_id : String
  pub dn_backup_path : String
  pub instance_name : String

pub record ShowListIn : Type 0 where
  pub db : HealthCheckIn
  pub dn_backup_path : String
  pub instance_name : String

pub record DiskSpaceIn : Type 0 where
  pub disk_path : String

pub record BackupInfo : Type 0 where
  pub id : String
  pub path : String
  pub mode : String
  pub instance_name : String
  pub start_time : String
  pub end_time : String
  pub status : BackupStatus

-- `Code`, `Msg` and `Data` of an answer.
pub record Reply (A : Type 0) : Type 0 where
  pub code : ℤ
  pub msg : String
  pub payload : A

pub record RestoreResult : Type 0 where
  pub ip : String
  pub port : ℕ
  pub status : String

pub record DeleteBackupResult : Type 0 where
  pub ip : String
  pub port : ℕ
  pub status : BackupStatus
  pub msg : String
