-- ===== src/Pitr/Commands/Nodes.antt =====
-- solutions/opengauss/pitr/cli/internal/cmd/backup.go: the export of the data, and what the goroutines
-- of the storage nodes do. Those of one step run one after the other, in the order in which they
-- end or report. `ticks` bounds the polls of a node: beyond, the process is taken to be killed, as it is by the
-- user where an agent stays at "Running".
use shardingsphere_on_cloud.Prelude.{
  ℕ, zero, suc, Bool, true, false, String, ◌<>◌, Option, none, some, List, [], ◌∷◌, ◌++◌, all,
  is_empty, ◌==◌, ◌||◌, if◌then◌else◌,
}
use shardingsphere_on_cloud.Go.{Error, text, cite}
use shardingsphere_on_cloud.Go.Number.{decimal}
use shardingsphere_on_cloud.Effects.{Prog, panic, pure, call, attempt, on_error, ◌>>=◌, ◌>>◌, pitr}
use shardingsphere_on_cloud.Pitr.Model.{
  BackupStatus, waiting, running, completed, failed, check_error, canceled, StorageNode, DataNode,
  LsBackup, ClusterInfo, BackupIn, ShowDetailIn,
}
use shardingsphere_on_cloud.Pitr.Requests.{new_uuid}
use shardingsphere_on_cloud.Pitr.Runtime.{Runtime, Flags}
use shardingsphere_on_cloud.Pitr.Agent as Agent
use shardingsphere_on_cloud.Pitr.Proxy.{export_metadata, export_storage_nodes}
use shardingsphere_on_cloud.Pitr.Storage.{extn_json, gen_filename, write_by_json}
use shardingsphere_on_cloud.Pitr.Commands.Common.{
  default_instance, certain, now_text, find_data_node, db_of, agent_address,
}

-- `defaultShowDetailRetryTimes`
abbrev pub default_show_detail_retry_times : ℕ
default_show_detail_retry_times = 3

-- The conversion of `BackupModeStr`; of any other text `BackupMode` stays empty.
abbrev pub backup_mode : Flags → String
backup_mode flags =
    if (flags.backup_mode_str == "FULL") || (flags.backup_mode_str == "full")
    then "FULL"
    else if (flags.backup_mode_str == "PTRACK") || (flags.backup_mode_str == "ptrack")
    then "PTRACK"
    else ""

-- What one poll of a node found.
pub data Progress : Type 0 where
  ongoing ended broken : Progress

-- The node with its status, the retries that are left, and what the poll found.
abbrev pub Poll : Type 0
Poll = DataNode × ℕ × Progress

-- A goroutine of `UpdateProgress` that has sent its data node to `dnCh` and marked its tracker, as
-- errored or as done, and is blocked for ever by its send to `done`.
pub record Blocked : Type 0 where
  pub sent : DataNode
  pub errored : Bool

abbrev pub with_backup_status : BackupStatus → LsBackup → LsBackup
with_backup_status s b = record b { ss_backup = record b.ss_backup { status = s } }

abbrev pub first_backup_error : List (DataNode × Option Error) → Option Error
first_backup_error [] = none
first_backup_error ((dn, some e) ∷ rest) = some e
first_backup_error ((dn, none) ∷ rest) = first_backup_error rest

abbrev pub data_nodes : List (DataNode × Option Error) → List DataNode
data_nodes [] = []
data_nodes ((dn, e) ∷ rest) = dn ∷ data_nodes rest

abbrev csn_of : ClusterInfo → String
csn_of c = elim c.snapshot_info [ none ↦ "" | some s ↦ s.csn ]

-- The outcome of the channel's loop: "Completed" if each node is.
abbrev pub final_status : List DataNode → BackupStatus
final_status dns = if all (λ dn. dn.status == completed) dns then completed else failed

-- The end of a poll that was answered with a status.
unfoldable pub polled : ℕ → DataNode → BackupStatus → Prog Poll
polled retries dn status = now_text >>= λ end_time. pure (
  record dn { status = status; end_time = end_time },
  retries,
  if (status == completed) || (status == failed) then ended else ongoing,
)

module _ (rt : Runtime) (flags : Flags) where
  -- `exportData`: the name of the file and the record that it holds
  unfoldable pub export_data : String → Prog (String × LsBackup)
  export_data dir = do
    cluster ← on_error (cite "export meta data failed. err: ") (export_metadata rt)
    nodes ← on_error (cite "export storage nodes failed. err: ") (export_storage_nodes rt)
    filename ← certain (gen_filename extn_json)
    id ← certain (call (pitr new_uuid))
    start_time ← now_text
    let contents : LsBackup = record {
      info = record {
        id = id;
        csn = csn_of cluster;
        backup_mode = backup_mode flags;
        start_time = start_time;
        end_time = "";
        file_name = "";
      };
      dn_list = [];
      ss_backup = record { status = waiting; cluster_info = some cluster; storage_nodes = nodes };
    }
    on_error (cite "write backup info by json failed. err: ")
        (write_by_json rt dir filename contents)
    pure (filename, contents)

  abbrev pub backup_in_of : StorageNode → BackupIn
  backup_in_of sn = record {
    db = db_of sn;
    dn_backup_path = flags.backup_path;
    dn_threads_num = flags.threads_num;
    dn_backup_mode = backup_mode flags;
    instance_name = default_instance;
  }

  -- The end of `_execBackup`, once the agent server has answered.
  unfoldable pub backed_up :
      StorageNode → BackupStatus → String → Option Error → Prog (DataNode × Option Error)
  backed_up sn status backup_id e = now_text >>= λ start_time. pure (
    record {
      ip = sn.ip;
      port = sn.port;
      status = status;
      backup_id = backup_id;
      start_time = start_time;
      end_time = "";
    },
    e,
  )

  -- `_execBackup`: the data node that it sends, and the error that it returns
  unfoldable pub exec_backup_node : StorageNode → Prog (DataNode × Option Error)
  exec_backup_node sn =
      attempt (Agent.backup (agent_address flags sn) (backup_in_of sn))
        (λ e. backed_up sn (rt.error_text e) "" (
          some
            (cite ("data node " <> (sn.ip <> (":" <> (decimal sn.port <> " backup error: ")))) e)))
        (λ id. backed_up sn running id none)

  unfoldable pub exec_backup_nodes : List StorageNode → Prog (List (DataNode × Option Error))
  exec_backup_nodes [] = pure []
  exec_backup_nodes (sn ∷ sns) =
      exec_backup_node sn >>= λ r. exec_backup_nodes sns >>= λ rs. pure (r ∷ rs)

  -- `execBackup`: the record as it leaves it, and the error that it returns
  unfoldable pub exec_backup : LsBackup → Prog (LsBackup × Option Error)
  exec_backup b = exec_backup_nodes (rt.finish b.ss_backup.storage_nodes) >>= λ results.
      pure (elim (first_backup_error results) [
        | some e ↦ (with_backup_status failed b, some (text (rt.error_text e)))
        | none ↦ (
          record (with_backup_status running b) { dn_list = b.dn_list ++ data_nodes results },
          none,
        )
      ])

  abbrev pub show_detail_of : StorageNode → DataNode → ShowDetailIn
  show_detail_of sn dn = record {
    db = db_of sn;
    dn_backup_id = dn.backup_id;
    dn_backup_path = flags.backup_path;
    instance_name = default_instance;
  }

  -- `checkProgress`, with the retries that are left
  unfoldable pub check_progress : ℕ → StorageNode → DataNode → Prog Poll
  check_progress zero sn dn =
      attempt (Agent.show_detail (agent_address flags sn) (show_detail_of sn dn))
        (λ _. pure (record dn { status = check_error }, zero, broken))
        (λ i. polled zero dn i.status)
  check_progress (suc retries) sn dn =
      attempt (Agent.show_detail (agent_address flags sn) (show_detail_of sn dn))
        (λ _. check_progress retries sn dn) (λ i. polled (suc retries) dn i.status)

  -- `UpdateProgress` of pkg/prettyoutput over `checkProgress`. It never returns: after the last poll
  -- it sends to its own channel `done`, which has no buffer and no other receiver.
  unfoldable pub poll : ℕ → ℕ → StorageNode → DataNode → Prog Blocked
  poll zero retries sn dn = panic "killed"
  poll (suc ticks) retries sn dn = check_progress retries sn dn >>= λ r. elim r.2 [
    | ongoing ↦ poll ticks r.1 sn r.0
    | ended ↦ pure (record { sent = r.0; errored = false })
    | broken ↦ pure (record { sent = r.0; errored = true })
  ]

  -- The goroutine of one node, which reads its data node, up to where it is blocked: the caller waits
  -- for the tracker and not for the goroutine.
  unfoldable pub poll_node : ℕ → List DataNode → StorageNode → Prog DataNode
  poll_node ticks dns sn = elim (find_data_node sn.ip dns) [
    | none ↦ panic "invalid memory address or nil pointer dereference"
    | some dn ↦ poll ticks default_show_detail_retry_times sn dn >>= λ g. pure g.sent
  ]

  unfoldable pub poll_nodes : ℕ → List DataNode → List StorageNode → Prog (List DataNode)
  poll_nodes ticks dns [] = pure []
  poll_nodes ticks dns (sn ∷ sns) =
      poll_node ticks dns sn >>= λ d. poll_nodes ticks dns sns >>= λ ds. pure (d ∷ ds)

  -- `checkBackupStatus`: the record as it leaves it, and the status that it returns
  unfoldable pub check_backup_status : ℕ → LsBackup → Prog (LsBackup × BackupStatus)
  check_backup_status ticks b =
      if is_empty b.ss_backup.storage_nodes then pure (b, canceled) else (do
        results ← poll_nodes ticks b.dn_list (rt.finish b.ss_backup.storage_nodes)
        end_time ← now_text
        let status = final_status results
        pure (
          record (with_backup_status status b) {
            dn_list = results;
            info = record b.info { end_time = end_time };
          },
          status,
        ))
