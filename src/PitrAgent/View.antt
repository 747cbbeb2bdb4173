-- ===== src/PitrAgent/View.antt =====
-- solutions/opengauss/pitr/agent/internal/handler/view. The inputs have the fields of those that the
-- command line sends, by their names in JSON, so they are the same types; `Schema`, which only the
-- health check has and the command line does not send, is an argument of its own.
use shardingsphere_on_cloud.Prelude.{
  String, Bool, not, Option, none, some, List, [], ◌∷◌, ◌++◌, map, ◌==◌, ◌&&◌, eqb, if◌then◌else◌,
}
use shardingsphere_on_cloud.Go.{Error}
use shardingsphere_on_cloud.Pitr.Model.{
  HealthCheckIn, BackupIn, DeleteBackupIn, RestoreIn, ShowDetailIn, ShowListIn, DiskSpaceIn,
  BackupInfo, BackupStatus, running, completed, failed,
}
use shardingsphere_on_cloud.PitrAgent.Errors.{
  invalid_db_port, missing_db_name, missing_username, missing_password, missing_dn_backup_path,
  invalid_dn_threads_num, missing_dn_backup_mode, invalid_dn_backup_mode, missing_instance,
  missing_dn_backup_id, missing_backup_id, missing_disk_path,
}
use shardingsphere_on_cloud.PitrAgent.Host.{Backup}

-- The error of the first condition that holds.
abbrev pub first_failing : List (Bool × Error) → Option Error
first_failing [] = none
first_failing ((b, e) ∷ rest) = let later = first_failing rest in if b then some e else later

-- What every method `Validate` but that of the disk space begins with.
abbrev pub db_checks : HealthCheckIn → List (Bool × Error)
db_checks db =
    (eqb db.db_port 0, invalid_db_port)
    ∷ (db.db_name == "", missing_db_name)
    ∷ (db.username == "", missing_username)
    ∷ (db.password == "", missing_password)
    ∷ []

abbrev pub backup_checks : BackupIn → List (Bool × Error)
backup_checks i =
    db_checks i.db
    ++ ((i.dn_backup_path == "", missing_dn_backup_path)
        ∷ (eqb i.dn_threads_num 0, invalid_dn_threads_num)
        ∷ (i.dn_backup_mode == "", missing_dn_backup_mode)
        ∷ (
          not (i.dn_backup_mode == "FULL") && not (i.dn_backup_mode == "PTRACK"),
          invalid_dn_backup_mode,
        )
        ∷ (i.instance_name == "", missing_instance)
        ∷ [])

-- `BackupIn.Validate`
unfoldable pub validate_backup : BackupIn → Option Error
validate_backup i = first_failing (backup_checks i)

-- `DeleteBackupIn.Validate`
unfoldable pub validate_delete_backup : DeleteBackupIn → Option Error
validate_delete_backup i = first_failing (
    db_checks i.db
    ++ ((i.dn_backup_path == "", missing_dn_backup_path)
        ∷ (i.backup_id == "", missing_backup_id)
        ∷ (i.instance_name == "", missing_instance)
        ∷ []))

-- `RestoreIn.Validate`
unfoldable pub validate_restore : RestoreIn → Option Error
validate_restore i = first_failing (
    db_checks i.db
    ++ ((i.dn_backup_path == "", missing_dn_backup_path)
        ∷ (i.dn_backup_id == "", missing_dn_backup_id)
        ∷ (i.instance_name == "", missing_instance)
        ∷ []))

-- `ShowIn.Validate`
unfoldable pub validate_show : ShowDetailIn → Option Error
validate_show i = first_failing (
    db_checks i.db
    ++ ((i.dn_backup_path == "", missing_dn_backup_path)
        ∷ (i.dn_backup_id == "", missing_dn_backup_id)
        ∷ (i.instance_name == "", missing_instance)
        ∷ []))

-- `ShowListIn.Validate`
unfoldable pub validate_show_list : ShowListIn → Option Error
validate_show_list i = first_failing (
    db_checks i.db
    ++ ((i.dn_backup_path == "", missing_dn_backup_path)
        ∷ (i.instance_name == "", missing_instance)
        ∷ []))

-- `DiskSpaceIn.Validate`
unfoldable pub validate_disk_space : DiskSpaceIn → Option Error
validate_disk_space i = if i.disk_path == "" then some missing_disk_path else none

-- `statusTrans`
abbrev pub status_trans : String → BackupStatus
status_trans s =
    if s == "OK"
    then completed
    else if s == "ERROR"
    then failed
    else if s == "RUNNING"
    then running
    else "Other"

abbrev pub info_of : (path name : String) → Backup → BackupInfo
info_of path name b = record {
  id = b.id;
  path = path;
  mode = b.backup_mode;
  instance_name = name;
  start_time = b.start_time;
  end_time = b.end_time;
  status = status_trans b.status;
}

-- `NewBackupInfo`, which is nil for nil
abbrev pub new_backup_info : (path name : String) → Option Backup → Option BackupInfo
new_backup_info path name none = none
new_backup_info path name (some b) = some (info_of path name b)

-- `NewBackupInfoList`
abbrev pub new_backup_info_list : (path name : String) → List Backup → List BackupInfo
new_backup_info_list path name bs = map (info_of path name) bs
