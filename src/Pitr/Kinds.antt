-- ===== src/Pitr/Kinds.antt =====
-- The kinds of request of the PITR command line, and the programs that keep to some of them.
use shardingsphere_on_cloud.Prelude.{Bool, true, false}
use shardingsphere_on_cloud.Effects.{Request}
use shardingsphere_on_cloud.Pitr.Requests.{AgentIn, PitrRequest}

pub data PitrKind : Type 0 where
  connects executes queries : PitrKind
  checks backs_up deletes restores reports measures : PitrKind
  makes_dir reads writes hides removes : PitrKind
  prompts gives : PitrKind

abbrev pub agent_kind : AgentIn → PitrKind
agent_kind (AgentIn.health_check_in _) = checks
agent_kind (AgentIn.backup_in _) = backs_up
agent_kind (AgentIn.delete_backup_in _) = deletes
agent_kind (AgentIn.restore_in _) = restores
agent_kind (AgentIn.show_detail_in _) = reports
agent_kind (AgentIn.show_list_in _) = reports
agent_kind (AgentIn.disk_space_in _) = measures

abbrev pub pitr_kind : PitrRequest → PitrKind
pitr_kind (PitrRequest.db_open _ _ _ _ _) = connects
pitr_kind PitrRequest.db_ping = connects
pitr_kind (PitrRequest.db_exec _) = executes
pitr_kind (PitrRequest.db_query _) = queries
pitr_kind (PitrRequest.send _ _ i) = agent_kind i
pitr_kind (PitrRequest.stat _) = reads
pitr_kind (PitrRequest.mkdir _) = makes_dir
pitr_kind (PitrRequest.read_dir _) = reads
pitr_kind (PitrRequest.create_file _ _) = writes
pitr_kind (PitrRequest.entry_info _ _) = reads
pitr_kind (PitrRequest.read_file _ _) = reads
pitr_kind (PitrRequest.remove_file _ _) = removes
pitr_kind (PitrRequest.write_file _ _ _) = writes
pitr_kind (PitrRequest.rename_file _ _ _) = hides
pitr_kind (PitrRequest.clock _) = gives
pitr_kind PitrRequest.new_uuid = gives
pitr_kind PitrRequest.read_line = prompts
pitr_kind (PitrRequest.random _) = gives

-- The request is of a kind that `s` marks.
abbrev pub of_pitr_kind : (PitrKind → Bool) → Request → Bool
of_pitr_kind s (Request.pitr q) = s (pitr_kind q)
of_pitr_kind s _ = false

abbrev pub is_executes : PitrKind → Bool
is_executes executes = true
is_executes _ = false

-- The request executes a statement in the proxy.
abbrev pub executes_statement : Request → Bool
executes_statement = of_pitr_kind is_executes

abbrev pub is_removes : PitrKind → Bool
is_removes removes = true
is_removes _ = false

-- The request removes a file.
abbrev pub removes_file : Request → Bool
removes_file = of_pitr_kind is_removes
