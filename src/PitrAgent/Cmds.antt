-- ===== src/PitrAgent/Cmds.antt =====
-- solutions/opengauss/pitr/agent/pkg/cmds/cmd.go: `Exec` and `AsyncExec`. What the goroutine of
-- `AsyncExec` sends is a list; the number of a line is only logged.
use Prim.Native.String.{len, slice}
use shardingsphere_on_cloud.Prelude.{
  String, ◌<>◌, Option, none, some, List, [], ◌∷◌, ◌++◌, map, if◌then◌else◌,
}
use shardingsphere_on_cloud.Go.{Error, Result, ok, err, text, wrap, cite}
use shardingsphere_on_cloud.Go.Text.{has_prefix, contains}
use shardingsphere_on_cloud.Effects.{Prog, done, fail, call, attempt, host}
use shardingsphere_on_cloud.PitrAgent.Requests.{
  Wait, exited, exit_error, unwaited, Ran, no_stdout, no_stderr, ran, Streamed, no_pipe, streamed,
  run_command, stream_command,
}
use shardingsphere_on_cloud.PitrAgent.Errors.{cmd_operate_failed}
use shardingsphere_on_cloud.PitrAgent.Host.{Host}

pub record Output : Type 0 where
  pub message : String
  pub error : Option Error

-- One replacement of `loadArgs`.
abbrev pub replaced : Host → String → String → String
replaced h name arg = elim (h.lookup_env name) [
  | none ↦ arg
  | some v ↦ if has_prefix arg name then v <> slice arg (len name) (len arg) else arg
]

-- `loadArgs`: both tests read the argument as it came, so the second replacement wins.
unfoldable pub load_args : Host → String → String
load_args h arg = elim (h.lookup_env "gs_ctrl") [
  | none ↦ replaced h "gs_probackup" arg
  | some v ↦
      if has_prefix arg "gs_ctrl" then replaced h "gs_ctrl" arg else replaced h "gs_probackup" arg
]

-- The end of `Exec`, from what `Wait` reports.
abbrev waited : Host → (stdout stderr : String) → Wait → Result String
waited h out e exited = ok out
waited h out e (exit_error x) = err (
    wrap
      ("exec failure[ee="
        <> (h.error_text x <> (",stdout=" <> (out <> (",stderr=" <> (e <> "], wrap:"))))))
      (text cmd_operate_failed))
waited h out e (unwaited x) = err (text (" err: " <> e))

abbrev pub finished : Host → Ran → Result String
finished h (no_stdout e) = err (cite "can not obtain stdout pipe for command:" e)
finished h (no_stderr e) = err (cite "can not obtain stderr pipe for cmand:" e)
finished h (ran (err e) _ _) = err (wrap "io.ReadAll return err=" e)
finished h (ran (ok out) (err e) _) = err (wrap "io.ReadAll return err=" e)
finished h (ran (ok out) (ok e) w) = waited h out e w

-- The request of `Exec`.
abbrev pub args_of : Host → String → List String
args_of h cmd = "-c" ∷ load_args h cmd ∷ []

-- `Exec`
unfoldable pub exec : Host → (name cmd : String) → Prog String
exec h name cmd =
    attempt (call (host (run_command name (args_of h cmd))))
      (λ e. fail (cite "the command is err:" e)) (λ r. done (finished h r))

abbrev pub line_output : String → Output
line_output s = record {
  message = s;
  error =
      if contains s "No space left on device" then some (text "No space left on device") else none;
}

abbrev pub wait_output : Host → Wait → List Output
wait_output h exited = []
wait_output h (exit_error x) =
    record {
      message = "";
      error =
          some
            (wrap ("exec failure[ee=" <> (h.error_text x <> "], wrap=")) (text cmd_operate_failed));
    }
    ∷ []
wait_output h (unwaited x) = record { message = ""; error = some (cite " err: " x) } ∷ []

abbrev pub scan_output : Option Error → List Output
scan_output none = []
scan_output (some e) = record { message = ""; error = some e } ∷ []

abbrev pub outputs : Host → Streamed → Result (List Output)
outputs h (no_pipe e) = err (cite "can not obtain stdout pipe for command:" e)
outputs h (streamed lines scan w) =
    ok (map line_output lines ++ (scan_output scan ++ wait_output h w))

-- `AsyncExec`
unfoldable pub async_exec : Host → (name cmd : String) → Prog (List Output)
async_exec h name cmd =
    attempt (call (host (stream_command name (args_of h cmd))))
      (λ e. fail (cite "the command is err:" e)) (λ s. done (outputs h s))
