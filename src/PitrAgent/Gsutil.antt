-- ===== src/PitrAgent/Gsutil.antt =====
-- solutions/opengauss/pitr/agent/pkg/gsutil/conn.go: the connection to the data node.
use shardingsphere_on_cloud.Prelude.{ℕ, String, ◌<>◌, if◌then◌else◌}
use shardingsphere_on_cloud.Go.{text, wrap}
use shardingsphere_on_cloud.Go.Number.{decimal}
use shardingsphere_on_cloud.Go.Text.{is_blank}
use shardingsphere_on_cloud.Effects.{Prog, fail, call, attempt, pure, ◌>>◌, host}
use shardingsphere_on_cloud.PitrAgent.Requests.{og_open, og_ping, og_exec, og_close}
use shardingsphere_on_cloud.PitrAgent.Errors.{db_connection_failed}
use shardingsphere_on_cloud.PitrAgent.Host.{Host}

abbrev connection : (user password db_name : String) → ℕ → String
connection user password db_name port =
    "host=127.0.0.1 port="
    <> (decimal port
        <> (" user="
            <> (user
                <> (" password="
                    <> (password <> (" dbname=" <> (db_name <> " sslmode=disable")))))))

-- `Open`
unfoldable pub open_db : Host → (user password db_name : String) → ℕ → Prog (Unit {0})
open_db h user password db_name port =
    if is_blank user
    then fail (text "user is empty")
    else if is_blank password
    then fail (text "password is empty")
    else if is_blank db_name
    then fail (text "db name is empty")
    else attempt (call (host (og_open (connection user password db_name port))))
        (λ e.
          fail (wrap ("sql:open fail,err=" <> (h.error_text e <> ",wrap=")) db_connection_failed))
        (λ _. pure tt)

-- `Ping`
unfoldable pub ping : Host → Prog (Unit {0})
ping h =
    attempt (call (host og_ping))
      (λ e. fail (wrap ("db ping fail,err=" <> (h.error_text e <> ",wrap=")) db_connection_failed))
      (λ _. call (host og_close))

-- `CheckSchema`
unfoldable pub check_schema : String → Prog (Unit {0})
check_schema s = call (host (og_exec s)) >> call (host og_close)
