-- ===== src/Pitr/Commands/Backup/Answers.antt =====
-- The answers of an agent server to the question for the progress of a backup.
use shardingsphere_on_cloud.Prelude.{
  ℕ, ◌+◌, String, ◌<>◌, ◌≡◌, ◌⊎◌, inl, inr, refl, Bool, true, false, [], ◌∷◌, ◌==◌, ◌||◌,
  if◌then◌else◌,
}
use shardingsphere_on_cloud.Go.{Result, ok, err}
use shardingsphere_on_cloud.Effects.{Request, attempt, pitr}
use shardingsphere_on_cloud.Effects.Run.{Env, History, returned, run_from}
use shardingsphere_on_cloud.Pitr.Kinds.{PitrKind, of_pitr_kind, reports}
use shardingsphere_on_cloud.Pitr.Model.{
  DataNode, BackupInfo, Reply, ShowDetailIn, completed, failed, check_error, BackupStatus,
}
use shardingsphere_on_cloud.Pitr.Requests.{send, show_detail_in, clock}
use shardingsphere_on_cloud.Pitr.Agent.{is_zero}
use shardingsphere_on_cloud.Pitr.Commands.Common.{now_text}
use shardingsphere_on_cloud.Pitr.Commands.Nodes.{Poll, Progress, ongoing, ended, broken}

abbrev is_reports : PitrKind → Bool
is_reports reports = true
is_reports _ = false

-- How often an agent server was asked for the progress.
abbrev pub asked : History → ℕ
asked [] = 0
asked (q ∷ h) = (if of_pitr_kind is_reports q then 1 else 0) + asked h

abbrev pub is_over : BackupStatus → Bool
is_over s = (s == completed) || (s == failed)

-- The answer is no report of a backup that goes on: an error, a code other than 0, or a status that
-- is "Completed" or "Failed".
abbrev pub IsLast : Result (Reply BackupInfo) → Type 0
IsLast (err e) = Unit
IsLast (ok reply) = (is_zero reply.code ≡ false) ⊎ (is_over reply.payload.status ≡ true)

pub now_text-run :
    (env : Env) (h : History)
    → (s : String) × (run_from env h now_text
        ≡ (returned (ok s), pitr (clock "2006-01-02 15:04:05") ∷ h))
unfolding run_from attempt
now_text-run env h = answered (env h (pitr (clock "2006-01-02 15:04:05"))) refl
  where
    answered :
        (r : Result String)
        → env h (pitr (clock "2006-01-02 15:04:05")) ≡ r
        → (s : String) × (run_from env h now_text
            ≡ (returned (ok s), pitr (clock "2006-01-02 15:04:05") ∷ h))
    answered (ok s) e = (s, rw e refl)
    answered (err x) e = ("", rw e refl)

-- A poll that found the backup over, or gave up, has the status of it.
abbrev pub Fits : Poll → Type 0
Fits (dn, r, ongoing) = Unit
Fits (dn, r, ended) = is_over dn.status ≡ true
Fits (dn, r, broken) = dn.status ≡ check_error

pub over :
    (reply : Reply BackupInfo)
    → is_zero reply.code ≡ true
    → IsLast (ok reply)
    → is_over reply.payload.status ≡ true
over reply z (inl n) = cc
over reply z (inr o) = o

abbrev pub verdict : Bool → Progress
verdict b = if b then ended else ongoing

pub fits :
    (dn : DataNode) (retries : ℕ) (b : Bool) → is_over dn.status ≡ b → Fits (dn, retries, verdict b)
fits dn retries true e = e
fits dn retries false e = tt

-- The question for the progress of a node to the agent server at `addr`.
abbrev pub question : String → ShowDetailIn → Request
question addr i = pitr (send "POST" (addr <> "/api/show") (show_detail_in i))
