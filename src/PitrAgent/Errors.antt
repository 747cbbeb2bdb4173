-- ===== src/PitrAgent/Errors.antt =====
-- solutions/opengauss/pitr/agent/internal/cons/error.go and pkg/xerror: an error with a code is its
-- text "code-message".
use shardingsphere_on_cloud.Prelude.{String, Bool, false, ◌==◌}
use shardingsphere_on_cloud.Go.{Error, text, wrap, cite, external}

-- `errors.Is(e, target)` for an error of `xerror.New`, whose text is `target`.
abbrev pub is_error : String → Error → Bool
is_error target (text s) = s == target
is_error target (wrap s e) = is_error target e
is_error target (cite s e) = false
is_error target (external s) = false

abbrev pub cmd_operate_failed : String
cmd_operate_failed = "10003-Command operate failed."

abbrev pub no_permission : Error
no_permission = text "10005-No permission to operate."

abbrev pub instance_already_exist : String
instance_already_exist = "10006-The instance already exist."

abbrev pub invalid_db_port : Error
invalid_db_port = text "10011-Invalid db port or missing db port."

abbrev pub missing_username : Error
missing_username = text "10012-Missing username"

abbrev pub missing_password : Error
missing_password = text "10013-Missing password."

abbrev pub missing_dn_backup_path : Error
missing_dn_backup_path = text "10014-Missing dn backup path."

abbrev pub invalid_dn_threads_num : Error
invalid_dn_threads_num = text "10015-Invalid dn threads num."

abbrev pub missing_dn_backup_mode : Error
missing_dn_backup_mode = text "10016-Missing dn backup mode."

abbrev pub invalid_dn_backup_mode : Error
invalid_dn_backup_mode = text "10017-Invalid dn backup mode."

abbrev pub missing_instance : Error
missing_instance = text "10018-Missing instance."

abbrev pub missing_dn_backup_id : Error
missing_dn_backup_id = text "10019-Missing dn backup id."

abbrev pub body_parse_failed : Error
body_parse_failed = text "10020-Invalid http request body."

abbrev pub missing_db_name : Error
missing_db_name = text "10021-Missing db name."

abbrev pub db_connection_failed : Error
db_connection_failed = text "10022-Database connection failed."

abbrev pub unknown_og_status : Error
unknown_og_status = text "10025-Unknown openGauss status."

abbrev pub missing_disk_path : Error
missing_disk_path = text "10029-Missing disk path."

abbrev pub missing_backup_id : Error
missing_backup_id = text "10030-Missing backup id."

abbrev pub missing_db_information : Error
missing_db_information = text "10031-Missing db information."

abbrev pub cmd_async_backup_failed : Error
cmd_async_backup_failed = text "10035-Command `gs_probackup backup` failed."
