-- ===== src/Pitr/Commands/Backup/Polling.antt =====
-- The polling of a node is reported once its agent server no longer reports a backup that goes on.
use package.native.Mathlib.Decide.{dec_le}
use shardingsphere_on_cloud.Prelude.{
  ℕ, zero, suc, ◌+◌, ◌≤◌, ◌<◌, String, ◌≡◌, ◌≢◌, ◌⊎◌, inl, inr, refl, ap, ◌∙◌, true, false, [], ◌∷◌,
  Bool-cases, arith,
}
use shardingsphere_on_cloud.Go.{Error, Result, ok, err}
use shardingsphere_on_cloud.Effects.{Prog, Request, attempt, pure, pitr}
use shardingsphere_on_cloud.Effects.Run.{Env, History, returned, run, run_from, run_from-attempt}
use shardingsphere_on_cloud.Pitr.Model.{
  StorageNode, DataNode, BackupInfo, Reply, ShowDetailIn, check_error, BackupStatus,
}
use shardingsphere_on_cloud.Pitr.Requests.{send, show_detail_in, clock}
use shardingsphere_on_cloud.Pitr.Runtime.{Runtime, Flags}
use shardingsphere_on_cloud.Pitr.Agent as Agent
use shardingsphere_on_cloud.Pitr.Agent.{is_zero, post, raw_request_err, agent_server_err}
use shardingsphere_on_cloud.Pitr.Commands.Common.{now_text, agent_address}
use shardingsphere_on_cloud.Pitr.Commands.Nodes.{
  Poll, Blocked, Progress, ongoing, ended, broken, polled, check_progress, poll, show_detail_of,
}
use shardingsphere_on_cloud.Pitr.Commands.Backup.Answers.{
  asked, is_over, IsLast, now_text-run, Fits, over, verdict, fits, question,
}

-- The goroutine has sent a node that is completed or failed and marked its tracker as done, or one
-- whose check failed and marked its tracker as errored.
abbrev pub IsReport : Blocked → Type 0
IsReport b =
    ((b.errored ≡ false) × (is_over b.sent.status ≡ true))
    ⊎ ((b.errored ≡ true) × (b.sent.status ≡ check_error))

module _ (rt : Runtime) (flags : Flags) (env : Env) (n : ℕ)
    (last : (h : History) (method url : String) (i : ShowDetailIn)
      → n ≤ asked h
      → IsLast (env h (pitr (send method url (show_detail_in i)))))
    (sn : StorageNode) where
  -- The program returns a poll of the node, after at least one more question.
  abbrev Polls : History → Prog Poll → Type 0
  Polls h p =
      (r : Poll) × (g : History) × (run_from env h p ≡ (returned (ok r), g))
      × (asked h < asked g)
      × Fits r
      × (n ≤ asked h → r.2 ≢ ongoing)

  -- The answer to the question, and what goes on from it.
  module _ {B : Type 0} (h : History) (addr : String) (i : ShowDetailIn) (e : Error → Prog B)
      (k : BackupInfo → Prog B) where
    abbrev Goes : Type 0
    Goes =
        ((x : Error) × (run_from env h (attempt (Agent.show_detail addr i) e k)
            ≡ run_from env (question addr i ∷ h) (e x)))
        ⊎ ((info : BackupInfo) × (run_from env h (attempt (Agent.show_detail addr i) e k)
              ≡ run_from env (question addr i ∷ h) (k info))
            × (n ≤ asked h → is_over info.status ≡ true))

    show_detail-Goes : Goes
    unfolding Agent.show_detail post attempt run_from
    show_detail-Goes = answered (env h (question addr i)) refl (λ l. last h "POST" _ i l)
      where
        answered :
            (r : Result (Reply BackupInfo))
            → env h (question addr i) ≡ r
            → (n ≤ asked h → IsLast r)
            → Goes
        answered (err x) p l = inl (raw_request_err x, rw p refl)
        answered (ok reply) p l = elim (Bool-cases (is_zero reply.code)) [
          | inl z ↦ inr (reply.payload, rw p (rw z refl), λ m. over reply z (l m))
          | inr z ↦ inl (agent_server_err reply.code reply.msg, rw p (rw z refl))
        ]

  polled-Polls :
      (h g : History) (retries : ℕ) (dn : DataNode) (status : BackupStatus) (p : Prog Poll)
      → run_from env h p ≡ run_from env g (polled retries dn status)
      → asked h < asked g
      → (n ≤ asked h → is_over status ≡ true)
      → Polls h p
  unfolding polled run_from
  polled-Polls h g retries dn status p runs more ends =
      let (t, run) = now_text-run env g in
      let r : Poll =
        (record dn { status = status; end_time = t }, retries, verdict (is_over status)) in
      let end : History = pitr (clock "2006-01-02 15:04:05") ∷ g in
      let all = runs ∙ run_from-attempt env now_text _ _ g end t run in
      (
        r,
        end,
        all,
        omega (arith, more),
        fits r.0 retries (is_over status) refl,
        λ l e. cc (e, ap verdict (ends l)),
      )

  check_progress-Polls :
      (retries : ℕ) (h : History) (dn : DataNode) → Polls h (check_progress rt flags retries sn dn)
  unfolding check_progress run_from
  check_progress-Polls zero h dn =
      let i : ShowDetailIn = show_detail_of rt flags sn dn in
      let gives_up : Poll = (record dn { status = check_error }, zero, broken) in
      elim (show_detail-Goes h (agent_address flags sn) i (λ _. pure gives_up)
        (λ d. polled zero dn d.status)) [
          | inl (x, runs) ↦ (
            gives_up,
            question (agent_address flags sn) i ∷ h,
            runs,
            omega arith,
            refl,
            λ l e. cc,
          )
          | inr (d, runs, ends) ↦
              polled-Polls h (question (agent_address flags sn) i ∷ h) zero dn d.status
                (check_progress rt flags zero sn dn) runs (omega arith) ends
        ]
  check_progress-Polls (suc retries) h dn =
      let i : ShowDetailIn = show_detail_of rt flags sn dn in
      let q : Request = question (agent_address flags sn) i in
      elim (show_detail-Goes h (agent_address flags sn) i
        (λ _. check_progress rt flags retries sn dn) (λ d. polled (suc retries) dn d.status)) [
          | inl (x, runs) ↦
              let (r, g, on, more, fit, ends) = check_progress-Polls retries (q ∷ h) dn in
              (r, g, runs ∙ on, omega (arith, more), fit, λ l. ends (omega (arith, l)))
          | inr (d, runs, ends) ↦
              polled-Polls h (q ∷ h) (suc retries) dn d.status
                (check_progress rt flags (suc retries) sn dn) runs (omega arith) ends
        ]

  abbrev Reports : History → Prog Blocked → Type 0
  Reports h p =
      (b : Blocked) × (g : History) × (run_from env h p ≡ (returned (ok b), g)) × IsReport b

  poll-step :
      (ticks retries left : ℕ) (h g : History) (dn d : DataNode) (p : Progress)
      → run_from env h (check_progress rt flags retries sn dn) ≡ (returned (ok (d, left, p)), g)
      → run_from env h (poll rt flags (suc ticks) retries sn dn)
        ≡ run_from env g (elim p [
          | ongoing ↦ poll rt flags ticks left sn d
          | ended ↦ pure (record { sent = d; errored = false })
          | broken ↦ pure (record { sent = d; errored = true })
        ])
  unfolding poll
  poll-step ticks retries left h g dn d p runs =
      run_from-attempt env (check_progress rt flags retries sn dn) _ _ h g (d, left, p) runs

  -- What follows one check of the progress, given how the next poll goes.
  polled_once :
      (ticks retries left : ℕ) (h g : History) (dn d : DataNode) (p : Progress)
      → n < suc ticks + asked h
      → asked h < asked g
      → run_from env h (check_progress rt flags retries sn dn) ≡ (returned (ok (d, left, p)), g)
      → Fits (d, left, p)
      → (n ≤ asked h → p ≢ ongoing)
      → (0 < ticks → n < ticks + asked g → Reports g (poll rt flags ticks left sn d))
      → Reports h (poll rt flags (suc ticks) retries sn dn)
  unfolding run_from
  polled_once ticks retries left h g dn d ongoing l more runs fit ends next =
      let early : asked h < n = elim (dec_le n (asked h)) [
        | yes m ↦ absurd (ends m refl)
        | no m ↦ omega (arith, m)
      ] in
      let (d', g', on, is) = next (omega (arith, early, l)) (omega (arith, early, l, more)) in
      (d', g', poll-step ticks retries left h g dn d ongoing runs ∙ on, is)
  polled_once ticks retries left h g dn d ended l more runs fit ends next = (
    record { sent = d; errored = false },
    g,
    poll-step ticks retries left h g dn d ended runs,
    inl (refl, fit),
  )
  polled_once ticks retries left h g dn d broken l more runs fit ends next = (
    record { sent = d; errored = true },
    g,
    poll-step ticks retries left h g dn d broken runs,
    inr (refl, fit),
  )

  poll-Reports :
      (ticks retries : ℕ) (h : History) (dn : DataNode)
      → 0 < ticks
      → n < ticks + asked h
      → Reports h (poll rt flags ticks retries sn dn)
  poll-Reports zero retries h dn z l = absurd (omega (arith, z))
  poll-Reports (suc ticks) retries h dn z l =
      let ((d, left, p), g, runs, more, fit, ends) = check_progress-Polls retries h dn in
      polled_once ticks retries left h g dn d p l more runs fit ends
        (λ z l. poll-Reports ticks left g d z l)

-- If every answer of an agent server is the last one from the `n`-th on, which is an error, a code
-- other than 0, or the status "Completed" or "Failed", then a poll of a node with more than `n`
-- ticks comes, whatever the number of retries, to where its goroutine is blocked for ever by its own
-- channel, with its report made: it has sent a data node with the status "Completed" or "Failed" and
-- marked its tracker as done, or sent one with the status "CheckError" and marked its tracker as
-- errored.
pub poll_reports :
    (rt : Runtime) (flags : Flags) (env : Env) (n : ℕ) (sn : StorageNode) (dn : DataNode)
    (ticks retries : ℕ)
    → ((h : History) (method url : String) (i : ShowDetailIn)
        → n ≤ asked h
        → IsLast (env h (pitr (send method url (show_detail_in i)))))
    → n < ticks
    → (b : Blocked) × ((run env (poll rt flags ticks retries sn dn)).0 ≡ returned (ok b))
      × IsReport b
unfolding run
poll_reports rt flags env n sn dn ticks retries last l =
    let (d, g, runs, is) =
      poll-Reports rt flags env n last sn ticks retries [] dn (omega (arith, l))
        (omega (arith, l)) in
    (d, ap (λ x. x.0) runs, is)
