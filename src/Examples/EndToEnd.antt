-- ===== src/Examples/EndToEnd.antt =====
-- The command line over two agents, each on a host where every command succeeds.
use shardingsphere_on_cloud.Prelude.{◌≡◌, refl, some, none, [], ◌∷◌, All}
use shardingsphere_on_cloud.Go.{ok}
use shardingsphere_on_cloud.Go.Number.{decimal}
use shardingsphere_on_cloud.Go.Text.{parent, contains, is_blank}
use shardingsphere_on_cloud.Effects.{pitr, host, attempt}
use shardingsphere_on_cloud.Effects.Run.{Env, History, run, run_from}
use shardingsphere_on_cloud.Pitr.Model.{DataNode}
use shardingsphere_on_cloud.Pitr.Requests.{send, restore_in}
use shardingsphere_on_cloud.Pitr.Agent as Agent
use shardingsphere_on_cloud.Pitr.Agent.{post}
use shardingsphere_on_cloud.Pitr.Proxy.{drop_database, import_metadata}
use shardingsphere_on_cloud.Pitr.Commands.Common.{
  find_data_node, check_agents, check_agent_server_status, has_duplicate, convert_localhost,
}
use shardingsphere_on_cloud.Pitr.Commands.Restore.{
  restore_approved, exec_restore, with_data_nodes, restore_nodes, restore_progress,
  restore_data_to_ss_proxy, drop_databases,
}
use shardingsphere_on_cloud.PitrAgent.Requests.{exited, ran, streamed, run_command, stream_command}
use shardingsphere_on_cloud.PitrAgent.Cmds.{exec, async_exec, load_args}
use shardingsphere_on_cloud.PitrAgent.Gsutil as Gsutil
use shardingsphere_on_cloud.PitrAgent.OpenGauss as OpenGauss
use shardingsphere_on_cloud.PitrAgent.OpenGauss.{operate}
use shardingsphere_on_cloud.PitrAgent.View.{validate_restore}
use shardingsphere_on_cloud.PitrAgent.Handlers as Handlers
use shardingsphere_on_cloud.PitrAgent.Handlers.{
  authenticate, started_after, moved_back, restore_data, restore_stopped,
}
use shardingsphere_on_cloud.PitrAgent.Handlers.Recovery.{
  Machine, Command, IsMachine, request, step, starts, stops, moves_out, moves_back, cleans, data_of,
  backup_data,
}
use shardingsphere_on_cloud.PitrAgent.Handlers.Recovery.Kept.{running_with}
use shardingsphere_on_cloud.EndToEnd.{IsRestored, replied, restore_run, restore_approved-IsRestored}
use shardingsphere_on_cloud.EndToEnd as EndToEnd
use shardingsphere_on_cloud.Examples.PitrAgent.{agent_host, command_of, stepped}
use shardingsphere_on_cloud.Examples.PitrData.{backup_record, rt, flags, env}

abbrev working : Env
working h (host (run_command shell args)) = ok (ran (ok "") (ok "") exited)
working h (host (stream_command shell args)) =
    ok (streamed ("INFO: Restore completed" ∷ []) none exited)
working h (host _) = ok tt
working h q = env "yes" h q

abbrev state : History → Machine
state [] = running_with (data_of "orders")
state (host (run_command shell args) ∷ g) = stepped (command_of args) (state g)
state (host (stream_command shell args) ∷ g) = record (state g) { pg_data = some backup_data }
state (q ∷ g) = state g

state-IsMachine : (i : _) → IsMachine working agent_host state i
unfolding load_args parent contains
state-IsMachine i = record {
  steps = λ g c s. known c g;
  stays = λ g c s. cc;
  restores = λ g. refl;
  opens = λ g s. refl;
  pings = λ g. refl;
  closes = λ g. refl;
}
  where
    known : (c : Command) (g : History) → state (request agent_host c ∷ g) ≡ step c (state g)
    known starts g = refl
    known stops g = refl
    known moves_out g = refl
    known moves_back g = refl
    known cleans g = refl

abbrev agent : EndToEnd.Agent
agent = record {
  server = agent_host;
  env = working;
  state = state;
  contents = data_of "orders";
  is_machine = state-IsMachine;
  is_running = refl;
}

abbrev with_agents : Env
with_agents h (pitr (send method url (restore_in i))) = replied agent_host (restore_run agent i).0
with_agents h q = env "yes" h q

restore_approved-IsRestored_example :
    All
      (λ sn.
        (dn : DataNode) × (find_data_node sn.ip backup_record.dn_list ≡ some dn)
        × IsRestored rt flags (λ g addr. agent) sn dn)
      backup_record.ss_backup.storage_nodes
unfolding run run_from attempt restore_approved exec_restore with_data_nodes restore_nodes
    restore_progress restore_data_to_ss_proxy drop_databases drop_database import_metadata
    find_data_node check_agents check_agent_server_status has_duplicate convert_localhost post
    Agent.restore Agent.check_status Handlers.restore authenticate started_after moved_back
    restore_data restore_stopped validate_restore OpenGauss.auth OpenGauss.stop OpenGauss.start
    OpenGauss.mv_pg_data_to_temp OpenGauss.mv_temp_to_pg_data OpenGauss.clean_pg_data_temp
    OpenGauss.restore operate exec async_exec load_args Gsutil.open_db Gsutil.ping is_blank contains
    parent decimal
restore_approved-IsRestored_example =
    restore_approved-IsRestored rt flags with_agents (λ g addr. agent) ("orders" ∷ []) backup_record
      (λ g method addr i. refl) (λ sn m. m) refl
