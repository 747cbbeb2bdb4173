-- ===== src/PitrAgent/Handlers/Recovery/Outcome.antt =====
-- How a restore ends, and what it leaves on the host.
use shardingsphere_on_cloud.Prelude.{
  ◌≡◌, inl, inr, refl, sym, ap, ◌∙◌, subst, false, Option, none, some, [], ◌∷◌,
}
use shardingsphere_on_cloud.Go.{Error, ok, err, wrap}
use shardingsphere_on_cloud.Effects.{Prog, pure, attempt, on_error, ◌>>◌}
use shardingsphere_on_cloud.Effects.Run.{
  Env, History, returned, panicked, run, run_from, run_from-attempt, run_from-attempt_err,
  run_from-attempt_panic,
}
use shardingsphere_on_cloud.Pitr.Model.{RestoreIn}
use shardingsphere_on_cloud.PitrAgent.Host.{Host}
use shardingsphere_on_cloud.PitrAgent.OpenGauss as OpenGauss
use shardingsphere_on_cloud.PitrAgent.View.{validate_restore}
use shardingsphere_on_cloud.PitrAgent.Handlers.{
  authenticate, started_after, moved_back, restore_data, restore_stopped, restore,
}
use shardingsphere_on_cloud.PitrAgent.Handlers.Recovery.{
  Contents, Machine, IsMachine, stops, moves_out, request, restore_request,
}
use shardingsphere_on_cloud.PitrAgent.Handlers.Recovery.Commands.{
  operate-Operates, restore-Recovers,
}
use shardingsphere_on_cloud.PitrAgent.Handlers.Recovery.Quiet.{Quiet, authenticate-Quiet}
use shardingsphere_on_cloud.PitrAgent.Handlers.Recovery.Kept.{
  IsKept, Ends, Restores, Reaches, stopped_with, running_with, on_error-Operates,
  started_after-Reaches, moved_back-Reaches, cleaning, cleaning-Reaches,
}

module _ (env : Env) (h : Host) (state : History → Machine) (i : RestoreIn)
    (is : IsMachine env h state i) (d : Contents) where
  abbrev recovery : Prog (Unit {0})
  recovery = OpenGauss.restore h i.dn_backup_path i.instance_name i.dn_backup_id i.dn_threads_num

  restore_data-Reaches :
      (g : History)
      → state g ≡ stopped_with d
      → Reaches env h state (Restores env h state d) (restore_data h i) g
  unfolding restore_data
  restore_data-Reaches g m = elim (restore-Recovers env h state i is g) [
    | inl (s, runs, same) ↦ (
      panicked s,
      restore_request h i ∷ g,
      run_from-attempt_panic env recovery _ _ g (restore_request h i ∷ g) s runs,
      same ∙ m,
    )
    | inr (inl (x, left, runs, s)) ↦
        let (o, end, on, is_so) =
          moved_back-Reaches env h state i is d x (restore_request h i ∷ g) left (rw m at s) in
        (
          o,
          end,
          run_from-attempt_err env recovery (moved_back h) _ g (restore_request h i ∷ g) x runs
              ∙ on,
          is_so,
        )
    | inr (inr (runs, s)) ↦
        let (o, end, on, is_so) =
          cleaning-Reaches env h state i is d (restore_request h i ∷ g) (rw m at s) in
        (
          o,
          end,
          run_from-attempt env recovery _ (λ _. cleaning env h state i is d) g
                (restore_request h i ∷ g) tt runs
              ∙ on,
          is_so,
        )
  ]

  -- The deferred start, by how the restore before it ends.
  started-Reaches :
      (p : Prog (Unit {0})) (g : History)
      → Reaches env h state (Restores env h state d) p g
      → Reaches env h state (Ends env h state d) (attempt p (started_after h) (λ _. pure tt)) g
  unfolding run_from
  started-Reaches p g (returned (ok tt), end, runs, m) =
      (returned (ok tt), end, run_from-attempt env p _ (λ _. pure tt) g end tt runs, m)
  started-Reaches p g (returned (err x), end, runs, k) =
      let (o, last, on, is_so) = started_after-Reaches env h state i is d x end k in
      (o, last, run_from-attempt_err env p (started_after h) _ g end x runs ∙ on, is_so)
  started-Reaches p g (panicked s, end, runs, m) =
      (panicked s, end, run_from-attempt_panic env p _ _ g end s runs, m)

  abbrev moving : Prog (Unit {0})
  moving =
      on_error (wrap "pkg.OG.MvPgDataToTemp return err wrap: ") (OpenGauss.mv_pg_data_to_temp h)

  restore_stopped-Reaches :
      (g : History)
      → state g ≡ record (running_with d) { running = false }
      → Reaches env h state (Ends env h state d) (restore_stopped h i) g
  unfolding restore_stopped OpenGauss.mv_pg_data_to_temp run_from
  restore_stopped-Reaches g m =
      started-Reaches _ g
        (elim (on_error-Operates env h state i is d moves_out
          (wrap "pkg.OG.MvPgDataToTemp return err wrap: ") (OpenGauss.mv_pg_data_to_temp h) g
          (operate-Operates env h state i is moves_out g)) [
            | inl (x, runs, bad, same) ↦ (
              returned (err x),
              request h moves_out ∷ g,
              run_from-attempt_err env moving _ _ g (request h moves_out ∷ g) x runs,
              subst (IsKept d) (sym (same ∙ m)) (inl (refl, refl)),
            )
            | inr (runs, s) ↦
                let (o, end, on, is_so) =
                  restore_data-Reaches (request h moves_out ∷ g) (rw m at s) in
                (
                  o,
                  end,
                  run_from-attempt env moving _ (λ _. restore_data h i) g (request h moves_out ∷ g)
                        tt runs
                      ∙ on,
                  is_so,
                )
          ])

  abbrev stopping : Prog (Unit {0})
  stopping = on_error (wrap "stop openGauss failure, err wrap: ") (OpenGauss.stop h)

  stopping-Reaches :
      (g : History)
      → state g ≡ running_with d
      → Reaches env h state (Ends env h state d) (stopping >> restore_stopped h i) g
  unfolding OpenGauss.stop run_from
  stopping-Reaches g m =
      elim (on_error-Operates env h state i is d stops (wrap "stop openGauss failure, err wrap: ")
        (OpenGauss.stop h) g (operate-Operates env h state i is stops g)) [
          | inl (x, runs, bad, same) ↦ (
            returned (err x),
            request h stops ∷ g,
            run_from-attempt_err env stopping _ _ g (request h stops ∷ g) x runs,
            (
              inl (ap (λ m. m.running) (same ∙ m)),
              subst (IsKept d) (sym (same ∙ m)) (inl (refl, refl)),
            ),
          )
          | inr (runs, s) ↦
              let (o, end, on, is_so) = restore_stopped-Reaches (request h stops ∷ g) (rw m at s) in
              (
                o,
                end,
                run_from-attempt env stopping _ (λ _. restore_stopped h i) g (request h stops ∷ g)
                      tt runs
                    ∙ on,
                is_so,
              )
        ]

  -- What follows the authentication.
  authenticated :
      (g : History)
      → state g ≡ running_with d
      → Quiet env state (authenticate h i.db) g
      → Reaches env h state
          (Ends env h state d)
          (authenticate h i.db >> (stopping >> restore_stopped h i))
          g
  unfolding Quiet run_from
  authenticated g m (ok a, end, runs, same) =
      let (o, last, on, is_so) = stopping-Reaches end (same ∙ m) in
      (
        o,
        last,
        run_from-attempt env (authenticate h i.db) _ (λ _. stopping >> restore_stopped h i) g end a
              runs
            ∙ on,
        is_so,
      )
  authenticated g m (err x, end, runs, same) = (
    returned (err x),
    end,
    run_from-attempt_err env (authenticate h i.db) _ _ g end x runs,
    (inl (ap (λ m. m.running) (same ∙ m)), subst (IsKept d) (sym (same ∙ m)) (inl (refl, refl))),
  )

  validated :
      (e : Option Error)
      → state [] ≡ running_with d
      → validate_restore i ≡ e
      → Reaches env h state (Ends env h state d) (restore h (ok i)) []
  unfolding restore attempt run_from
  validated none m v = rw v (authenticated [] m (authenticate-Quiet env state h i is i.db []))
  validated (some e) m v = rw v (
    returned (err (wrap "invalid parameter, err wrap: " e)),
    [],
    refl,
    (inl (ap (λ m. m.running) m), subst (IsKept d) (sym m) (inl (refl, refl))),
  )

-- On a host where openGauss runs on the data `d` and there is no temporary directory, where a command
-- that fails changes nothing, but that `rm -r` may leave a part of its directory and a restore that
-- fails may leave any data directory: a restore that returns no error leaves openGauss running on the
-- data of the backup, and no temporary directory; after one that returns an error openGauss runs, or
-- the last request is a start of it that failed, and `d` is in its place, or in the temporary
-- directory, or moved into what the failed restore left, or replaced by the data of the backup; and
-- one that never returns leaves openGauss stopped and `d` in the temporary directory.
pub restore-Ends :
    (env : Env) (h : Host) (state : History → Machine) (i : RestoreIn) (d : Contents)
    → IsMachine env h state i
    → state [] ≡ running_with d
    → Ends env h state d (run env (restore h (ok i))).0 (run env (restore h (ok i))).1
unfolding run
restore-Ends env h state i d is m =
    let (o, g, runs, e) = validated env h state i is d (validate_restore i) m refl in rw runs e
