-- ===== src/Examples/PitrAgent.antt =====
-- A host whose restore runs out of space and leaves no data directory.
use shardingsphere_on_cloud.Prelude.{
  String, ◌≡◌, ◌≢◌, ◌↔◌, refl, ◌==◌, if◌then◌else◌, Option, none, some, List, [], ◌∷◌,
}
use shardingsphere_on_cloud.Go.{ok, err, text}
use shardingsphere_on_cloud.Effects.{host}
use shardingsphere_on_cloud.Effects.Run.{Env, History, run}
use shardingsphere_on_cloud.Pitr.Model.{RestoreIn}
use shardingsphere_on_cloud.PitrAgent.Requests.{exited, ran, streamed, run_command, stream_command}
use shardingsphere_on_cloud.PitrAgent.Host.{Host}
use shardingsphere_on_cloud.PitrAgent.Cmds.{load_args}
use shardingsphere_on_cloud.PitrAgent.Handlers.{restore}
use shardingsphere_on_cloud.PitrAgent.Handlers.Recovery.{
  Command, Machine, starts, stops, moves_out, moves_back, cleans, data_of, command, step, request,
  IsMachine,
}
use shardingsphere_on_cloud.PitrAgent.Handlers.Recovery.Kept.{Ends, running_with}
use shardingsphere_on_cloud.PitrAgent.Handlers.Recovery.Outcome.{restore-Ends}
use shardingsphere_on_cloud.Go.Text.{parent, contains}
use shardingsphere_on_cloud.PitrAgent.View.{validate_backup}
use shardingsphere_on_cloud.PitrAgent.Handlers.Accepts.{IsMode, backup_accepted_iff}
use shardingsphere_on_cloud.Pitr.Commands.Nodes.{backup_in_of}
use shardingsphere_on_cloud.Examples.PitrData.{node, rt, flags}

abbrev pub agent_host : Host
agent_host = record {
  shell = "/bin/sh";
  pg_data = "/home/omm/data";
  env_shell = "/bin/sh";
  lookup_env = λ _. none;
  error_text = λ e. "failed";
  find_backup_id = λ s. ok (some "B1");
  unmarshal_lists = λ s. ok [];
}

abbrev restore_in : RestoreIn
restore_in = record {
  db = record { db_port = 5432; db_name = "orders"; username = "gauss"; password = "secret" };
  instance_name = "ins-default-ss";
  dn_backup_path = "/backup";
  dn_backup_id = "B1";
  dn_threads_num = 1;
}

abbrev env : Env
env h (host (run_command shell args)) = ok (ran (ok "") (ok "") exited)
env h (host (stream_command shell args)) =
    ok (streamed ("No space left on device" ∷ []) none exited)
env h (host _) = ok tt
env h q = err (text "no operator runs here")

-- The command of the shell's arguments, in its own words: no variable replaces it.
abbrev pub command_of : List String → Option Command
command_of (c ∷ cmd ∷ []) =
    if cmd == command agent_host starts
    then some starts
    else if cmd == command agent_host stops
    then some stops
    else if cmd == command agent_host moves_out
    then some moves_out
    else if cmd == command agent_host moves_back
    then some moves_back
    else if cmd == command agent_host cleans
    then some cleans
    else none
command_of _ = none

abbrev pub stepped : Option Command → Machine → Machine
stepped none m = m
stepped (some c) m = step c m

abbrev state : History → Machine
state [] = running_with (data_of "orders")
state (host (run_command shell args) ∷ g) = stepped (command_of args) (state g)
state (host (stream_command shell args) ∷ g) = record (state g) { pg_data = none }
state (q ∷ g) = state g

state-IsMachine : IsMachine env agent_host state restore_in
unfolding load_args parent contains
state-IsMachine = record {
  steps = λ g c s. known c g;
  stays = λ g c s. cc;
  restores = λ g. (none, refl);
  opens = λ g s. refl;
  pings = λ g. refl;
  closes = λ g. refl;
}
  where
    known : (c : Command) (g : History) → state (request agent_host c ∷ g) ≡ step c (state g)
    known starts g = refl
    known stops g = refl
    known moves_out g = refl
    known moves_back g = refl
    known cleans g = refl

restore-Ends_example :
    Ends env agent_host state
      (data_of "orders")
      (run env (restore agent_host (ok restore_in))).0
      (run env (restore agent_host (ok restore_in))).1
restore-Ends_example =
    restore-Ends env agent_host state restore_in (data_of "orders") state-IsMachine refl

backup_accepted_iff_example : (validate_backup (backup_in_of rt flags node) ≡ none) ↔ (
    (node.port ≢ 0)
    × (node.database ≢ "")
    × (node.username ≢ "")
    × (node.password ≢ "")
    × (flags.backup_path ≢ "")
    × (flags.threads_num ≢ 0)
    × IsMode flags.backup_mode_str)
backup_accepted_iff_example = backup_accepted_iff rt flags node
