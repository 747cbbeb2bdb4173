-- ===== src/PitrAgent/Requests.antt =====
-- What the agent asks of its host: commands of `os/exec`, the database over `database/sql`, and a
-- directory.
use shardingsphere_on_cloud.Prelude.{String, Option, List}
use shardingsphere_on_cloud.Go.{Error, Result}

-- `Wait`: the command has succeeded, it has ended with another exit code (`ExitError`), or the wait
-- itself has failed.
pub data Wait : Type 0 where
  exited : Wait
  exit_error unwaited : Error → Wait

-- A command that `Exec` waits for, up to where it came. An error of `Start` is the error of the
-- request.
pub data Ran : Type 0 where
  no_stdout no_stderr : Error → Ran
  ran : (stdout stderr : Result String) → Wait → Ran

-- A command whose lines `AsyncExec` reads: what `Scan` finds, and what `Err` and `Wait` report.
pub data Streamed : Type 0 where
  no_pipe : Error → Streamed
  streamed : (lines : List String) → (scan : Option Error) → Wait → Streamed

pub data HostRequest : Type 0 where
  run_command stream_command : (shell : String) → (args : List String) → HostRequest
  og_open og_exec : String → HostRequest
  og_ping og_close : HostRequest
  mkdir_all : String → HostRequest

abbrev pub HostResponse : HostRequest → Type 0
HostResponse (run_command _ _) = Ran
HostResponse (stream_command _ _) = Streamed
HostResponse _ = Unit
