-- ===== src/Pitr/Agent.antt =====
-- solutions/opengauss/pitr/cli/internal/pkg/agent-server.go: the client of an agent server.
use shardingsphere_on_cloud.Prelude.{◌+◌, String, ◌<>◌, Bool, false, List, if◌then◌else◌, eqb}
use shardingsphere_on_cloud.Go.{Error, text, cite}
use shardingsphere_on_cloud.Go.Number.{ℤ, pos, negsuc, decimal}
use shardingsphere_on_cloud.Effects.{Prog, pure, fail, call, attempt, pitr}
use shardingsphere_on_cloud.Pitr.Model.{
  HealthCheckIn, BackupIn, DeleteBackupIn, RestoreIn, ShowDetailIn, ShowListIn, DiskSpaceIn,
  BackupInfo,
}
use shardingsphere_on_cloud.Pitr.Requests.{
  AgentIn, Payload, send, health_check_in, backup_in, delete_backup_in, restore_in, show_detail_in,
  show_list_in, disk_space_in,
}

abbrev pub is_zero : ℤ → Bool
is_zero (pos n) = eqb n 0
is_zero (negsuc n) = false

abbrev integer : ℤ → String
integer (pos n) = decimal n
integer (negsuc n) = "-" <> decimal (n + 1)

-- `NewAgentServerErr`
abbrev pub agent_server_err : ℤ → String → Error
agent_server_err code msg =
    text ("agent server err[code=" <> (integer code <> (", msg=" <> (msg <> "]"))))

-- `NewHTTPRawRequestErr`, of the error that `Unwrap` finds in that of `Send`
abbrev pub raw_request_err : Error → Error
raw_request_err e = cite "err=" e

-- What the functions of the client share: an error of `Send`, an answer whose code is not 0, or the
-- data of the answer.
unfoldable pub post : (method url : String) → (i : AgentIn) → Prog (Payload i)
post method url i =
    attempt (call (pitr (send method url i))) (λ e. fail (raw_request_err e))
      λ out. if is_zero out.code then pure out.payload else fail (agent_server_err out.code out.msg)

-- `CheckStatus`
unfoldable pub check_status : String → HealthCheckIn → Prog (Unit {0})
check_status addr i = post "POST" (addr <> "/api/healthz") (health_check_in i)

-- `Backup`
unfoldable pub backup : String → BackupIn → Prog String
backup addr i = post "POST" (addr <> "/api/backup") (backup_in i)

-- `Restore`
unfoldable pub restore : String → RestoreIn → Prog (Unit {0})
restore addr i = post "POST" (addr <> "/api/restore") (restore_in i)

-- `ShowDetail`
unfoldable pub show_detail : String → ShowDetailIn → Prog BackupInfo
show_detail addr i = post "POST" (addr <> "/api/show") (show_detail_in i)

-- `ShowList`
unfoldable pub show_list : String → ShowListIn → Prog (List BackupInfo)
show_list addr i = post "POST" (addr <> "/api/show/list") (show_list_in i)

-- `ShowDiskSpace`
unfoldable pub show_disk_space : String → DiskSpaceIn → Prog String
show_disk_space addr i = post "POST" (addr <> "/api/diskspace") (disk_space_in i)

-- `DeleteBackup`
unfoldable pub delete_backup : String → DeleteBackupIn → Prog (Unit {0})
delete_backup addr i = post "DELETE" (addr <> "/api/backup") (delete_backup_in i)
