-- ===== src/Pitr/Commands/Common.antt =====
-- solutions/opengauss/pitr/cli/internal/cmd/common.go, and the prompt of pkg/promptutil.
use shardingsphere_on_cloud.Prelude.{
  String, ◌<>◌, Bool, true, false, Option, none, some, List, [], ◌∷◌, ◌++◌, ◌==◌, ◌||◌, not, any,
  if◌then◌else◌,
}
use shardingsphere_on_cloud.Go.{text, cite}
use shardingsphere_on_cloud.Go.Number.{decimal}
use shardingsphere_on_cloud.Effects.{Prog, panic, pure, fail, call, attempt, on_error, ◌>>=◌, pitr}
use shardingsphere_on_cloud.Pitr.Model.{StorageNode, DataNode, LsBackup, HealthCheckIn}
use shardingsphere_on_cloud.Pitr.Requests.{clock, read_line}
use shardingsphere_on_cloud.Pitr.Runtime.{Runtime, Flags}
use shardingsphere_on_cloud.Pitr.Agent.{check_status, show_disk_space}
use shardingsphere_on_cloud.Pitr.Storage.{read_all_by_csn, read_by_id}

abbrev pub default_instance : String
default_instance = "ins-default-ss"

-- What reads the clock or a random source and cannot fail: an error would read as "".
abbrev pub certain : Prog String → Prog String
certain m = attempt m (λ _. pure "") (λ s. pure s)

-- `timeutil.Now().String()`
abbrev pub now_text : Prog String
now_text = certain (call (pitr (clock "2006-01-02 15:04:05")))

abbrev pub is_approval : String → Bool
is_approval line =
    (line == "Y") || ((line == "y") || ((line == "yes") || ((line == "YES") || (line == "Yes"))))

-- `GetUserApproveInTerminal`
unfoldable pub get_user_approve_in_terminal : Prog (Unit {0})
get_user_approve_in_terminal = do
  line ← on_error (cite "read user input failed:") (call (pitr read_line))
  if not (is_approval line) then fail (text "User abort") else pure tt

-- `baks[0]`
abbrev pub first_backup : List LsBackup → Prog LsBackup
first_backup [] = panic "index out of range [0] with length 0"
first_backup (b ∷ _) = pure b

abbrev pub checked_records : List LsBackup → Prog (List LsBackup)
checked_records [] = fail (text "backup record not found.")
checked_records (b ∷ []) = pure (b ∷ [])
checked_records (_ ∷ (_ ∷ _)) =
    fail (text "multiple backup records found. please using ID to submit one specific record.")

-- `map[dn.IP] = dn` for each data node: of two with one IP the later is found.
unfoldable pub find_data_node : String → List DataNode → Option DataNode
find_data_node ip [] = none
find_data_node ip (dn ∷ dns) = elim (find_data_node ip dns) [
  | some later ↦ some later
  | none ↦ if dn.ip == ip then some dn else none
]

-- The loop of `checkAgentServerStatus` over the IPs that were met.
unfoldable pub has_duplicate : List StorageNode → List String → Bool
has_duplicate [] met = false
has_duplicate (n ∷ ns) met = any (λ ip. ip == n.ip) met || has_duplicate ns (n.ip ∷ met)

abbrev pub db_of : StorageNode → HealthCheckIn
db_of sn = record {
  db_port = sn.port;
  db_name = sn.database;
  username = sn.username;
  password = sn.password;
}

module _ (flags : Flags) where
  -- `convertLocalhost`
  unfoldable pub convert_localhost : String → String
  convert_localhost ip = if ip == "127.0.0.1" then flags.host else ip

  abbrev pub agent_address : StorageNode → String
  agent_address sn = convert_localhost sn.ip <> (":" <> decimal flags.agent_port)

  -- The loop of `checkAgentServerStatus` that asks each agent server.
  unfoldable pub check_agents : List StorageNode → Prog Bool
  check_agents [] = pure true
  check_agents (sn ∷ sns) =
      attempt (check_status (agent_address sn) (db_of sn))
        (λ _. check_agents sns >>= λ _. pure false) (λ _. check_agents sns)

  -- `checkAgentServerStatus`
  unfoldable pub check_agent_server_status : LsBackup → Prog Bool
  check_agent_server_status b = check_agents b.ss_backup.storage_nodes >>= λ available.
      pure (if has_duplicate b.ss_backup.storage_nodes [] then false else available)

  unfoldable pub show_disk_spaces : List StorageNode → Prog (Unit {0})
  show_disk_spaces [] = pure tt
  show_disk_spaces (sn ∷ sns) =
      attempt (show_disk_space (agent_address sn) (record { disk_path = flags.backup_path }))
        (λ _. show_disk_spaces sns) (λ _. show_disk_spaces sns)

  -- `checkDiskSpace`
  unfoldable pub check_disk_space : LsBackup → Prog (Unit {0})
  check_disk_space b = show_disk_spaces b.ss_backup.storage_nodes

  module _ (rt : Runtime) where
    -- `validate`
    unfoldable pub validate : (dir : String) → Prog (List LsBackup)
    validate dir = do
      of_csn ←
          if flags.csn == ""
          then pure []
          else on_error (cite "read backup record by csn failed. err: ")
              (read_all_by_csn rt dir flags.csn)
      of_id ←
          if flags.record_id == ""
          then pure []
          else on_error (cite "read backup record by id failed. err: ")
              (read_by_id rt dir flags.record_id >>= λ b. pure (b ∷ []))
      checked_records (of_csn ++ of_id)
