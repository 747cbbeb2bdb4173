-- ===== src/PitrAgent/Handlers/Recovery.antt =====
-- What a restore leaves on the host, `restore` of PitrAgent/Handlers: a model of the host, whose
-- state the commands change.
pub mod Commands
pub mod Quiet
pub mod Kept
pub mod Outcome
use shardingsphere_on_cloud.Prelude.{String, ◌≡◌, Bool, true, false, Option, none, some, List, ◌∷◌}
use shardingsphere_on_cloud.Go.{Error, Result, ok, err}
use shardingsphere_on_cloud.Effects.{Request, host}
use shardingsphere_on_cloud.Effects.Run.{Env, History}
use shardingsphere_on_cloud.Pitr.Model.{RestoreIn}
use shardingsphere_on_cloud.PitrAgent.Requests.{
  Wait, exited, Ran, ran, Streamed, run_command, stream_command, og_open, og_ping, og_close,
}
use shardingsphere_on_cloud.PitrAgent.Host.{Host}
use shardingsphere_on_cloud.PitrAgent.Cmds.{Output, args_of, outputs}
use shardingsphere_on_cloud.PitrAgent.OpenGauss.{
  start_cmd, stop_cmd, mv_to_temp_cmd, mv_to_pg_data_cmd, clean_cmd, restore_cmd, first_error,
}

-- What a directory holds: some data, the data of the backup, what a restore that failed left, or the
-- first with the second moved into it.
pub data Contents : Type 0 where
  data_of : String → Contents
  backup_data partial : Contents
  within : Contents → Contents → Contents

-- Whether openGauss runs, and the directories `pgData` and `pgDataTemp`.
pub record Machine : Type 0 where
  pub running : Bool
  pub pg_data : Option Contents
  pub temp : Option Contents

-- The commands that the restore waits for.
pub data Command : Type 0 where
  starts stops moves_out moves_back cleans : Command

-- `mv from to`: onto a directory that exists it moves into it.
abbrev pub mv : (from to : Option Contents) → Option Contents
mv none to = to
mv (some d) none = some d
mv (some d) (some t) = some (within t d)

-- The effect of a command that succeeds.
abbrev pub step : Command → Machine → Machine
step starts m = record m { running = true }
step stops m = record m { running = false }
step moves_out m = record m { pg_data = none; temp = mv m.pg_data m.temp }
step moves_back m = record m { pg_data = mv m.temp m.pg_data; temp = none }
step cleans m = record m { temp = none }

-- What a command that fails leaves: all as it was, but for the temporary directory that a failed
-- `rm -r` leaves in part.
abbrev pub Leaves : Command → Machine → Machine → Type 0
Leaves cleans m m' = (m'.running ≡ m.running) × (m'.pg_data ≡ m.pg_data)
Leaves c m m' = m' ≡ m

abbrev pub command : Host → Command → String
command h starts = start_cmd h
command h stops = stop_cmd h
command h moves_out = mv_to_temp_cmd h
command h moves_back = mv_to_pg_data_cmd h
command h cleans = clean_cmd h

abbrev pub request : Host → Command → Request
request h c = host (run_command h.shell (args_of h (command h c)))

abbrev pub restore_request : Host → RestoreIn → Request
restore_request h i = host (
    stream_command h.shell
      (args_of h (restore_cmd h i.dn_backup_path i.instance_name i.dn_backup_id i.dn_threads_num)))

-- `Exec` answers without an error.
abbrev pub succeeds : Result Ran → Bool
succeeds (ok (ran (ok out) (ok e) exited)) = true
succeeds _ = false

-- The effect of a restore whose outputs have the first error given, which leaves any data directory.
abbrev pub Recovered : Option Error → Machine → Machine → Type 0
Recovered none m m' = m' ≡ record m { pg_data = some backup_data }
Recovered (some e) m m' = (left : Option Contents) × (m' ≡ record m { pg_data = left })

abbrev pub Read : Result (List Output) → Machine → Machine → Type 0
Read (err e) m m' = m' ≡ m
Read (ok os) m m' = Recovered (first_error os) m m'

-- The effect of the restore, by its answer: one that was not started has none.
abbrev pub Restored : Host → Result Streamed → Machine → Machine → Type 0
Restored h (err e) m m' = m' ≡ m
Restored h (ok s) m m' = Read (outputs h s) m m'

-- The environment is a host in the state `state`, which only commands change.
pub record IsMachine (env : Env) (h : Host) (state : History → Machine) (i : RestoreIn)
    : Type 0 where
  pub steps :
      (g : History) (c : Command)
      → succeeds (env g (request h c)) ≡ true
      → state (request h c ∷ g) ≡ step c (state g)
  pub stays :
      (g : History) (c : Command)
      → succeeds (env g (request h c)) ≡ false
      → Leaves c (state g) (state (request h c ∷ g))
  pub restores :
      (g : History)
      → Restored h (env g (restore_request h i)) (state g) (state (restore_request h i ∷ g))
  pub opens : (g : History) (s : String) → state (host (og_open s) ∷ g) ≡ state g
  pub pings : (g : History) → state (host og_ping ∷ g) ≡ state g
  pub closes : (g : History) → state (host og_close ∷ g) ≡ state g
