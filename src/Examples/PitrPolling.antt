-- ===== src/Examples/PitrPolling.antt =====
-- The polling of a node whose agent server reports "Running" twice.
use shardingsphere_on_cloud.Prelude.{◌≡◌, ◌≤◌, inr, refl, false, if◌then◌else◌, ltb, arith}
use shardingsphere_on_cloud.Go.{ok}
use shardingsphere_on_cloud.Go.Number.{pos}
use shardingsphere_on_cloud.Effects.{pitr, attempt}
use shardingsphere_on_cloud.Effects.Run.{Env, returned, run, run_from}
use shardingsphere_on_cloud.Pitr.Model.{running, completed}
use shardingsphere_on_cloud.Pitr.Requests.{send, show_detail_in}
use shardingsphere_on_cloud.Pitr.Agent as Agent
use shardingsphere_on_cloud.Pitr.Agent.{post}
use shardingsphere_on_cloud.Pitr.Commands.Nodes.{Blocked, polled, check_progress, poll}
use shardingsphere_on_cloud.Pitr.Commands.Backup.Answers.{asked, IsLast}
use shardingsphere_on_cloud.Pitr.Commands.Backup.Polling.{IsReport, poll_reports}
use shardingsphere_on_cloud.Examples.PitrData.{node, data_node, info, rt, flags, env}

abbrev slow : Env
slow h (pitr (send method url (show_detail_in i))) = ok (record {
  code = pos 0;
  msg = "";
  payload = record info { status = if ltb (asked h) 2 then running else completed };
})
slow h q = env "yes" h q

slow-IsLast :
    (h : _) (method url : _) (i : _)
    → 2 ≤ asked h
    → IsLast (slow h (pitr (send method url (show_detail_in i))))
slow-IsLast h method url i l =
    let late : ltb (asked h) 2 ≡ false = ground arith in inr (rw late refl)

poll_reports_example :
    (b : Blocked) × ((run slow (poll rt flags 3 2 node (record data_node { status = running }))).0
      ≡ returned (ok b))
    × IsReport b
unfolding run run_from attempt polled check_progress poll post Agent.show_detail
poll_reports_example =
    poll_reports rt flags slow 2 node (record data_node { status = running }) 3 2 slow-IsLast
      (omega arith)
