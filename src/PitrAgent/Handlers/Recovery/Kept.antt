-- ===== src/PitrAgent/Handlers/Recovery/Kept.antt =====
-- The parts of a restore that leave the data: the deferred functions, and the clean-up.
use shardingsphere_on_cloud.Prelude.{
  ◌≡◌, ◌⊎◌, inl, inr, refl, sym, ap, ◌∙◌, subst, true, false, Option, none, some, ◌∷◌,
}
use shardingsphere_on_cloud.Go.{Error, ok, err, wrap}
use shardingsphere_on_cloud.Effects.{Prog, on_error, ◌>>◌}
use shardingsphere_on_cloud.Effects.Run.{
  Env, History, Outcome, returned, panicked, run_from, run_from-attempt, run_from-attempt_err,
}
use shardingsphere_on_cloud.Pitr.Model.{RestoreIn}
use shardingsphere_on_cloud.PitrAgent.Host.{Host}
use shardingsphere_on_cloud.PitrAgent.OpenGauss as OpenGauss
use shardingsphere_on_cloud.PitrAgent.Handlers.{started_after, moved_back}
use shardingsphere_on_cloud.PitrAgent.Handlers.Recovery.{
  Command, Contents, Machine, IsMachine, backup_data, within, mv, starts, moves_back, cleans,
  request, succeeds,
}
use shardingsphere_on_cloud.PitrAgent.Handlers.Recovery.Commands.{Operates, operate-Operates}

-- The data `d` is in its place, or in the temporary directory, or moved into what a failed restore
-- left, or replaced by that of the backup.
abbrev pub IsKept : Contents → Machine → Type 0
IsKept d m =
    ((m.pg_data ≡ some d) × (m.temp ≡ none))
    ⊎ ((m.temp ≡ some d)
        ⊎ (((t : Contents) × (m.pg_data ≡ some (within t d))) ⊎ (m.pg_data ≡ some backup_data)))

-- openGauss is stopped, and its data is in the temporary directory.
abbrev pub stopped_with : Contents → Machine
stopped_with d = record { running = false; pg_data = none; temp = some d }

abbrev pub restored : Machine
restored = record { running = true; pg_data = some backup_data; temp = none }

abbrev pub running_with : Contents → Machine
running_with d = record { running = true; pg_data = some d; temp = none }

module _ (env : Env) (h : Host) (state : History → Machine) where
  -- openGauss runs, or the last request is a start of it that failed.
  abbrev pub Runs : History → Type 0
  Runs g =
      ((state g).running ≡ true)
      ⊎ ((g' : History) × (g ≡ request h starts ∷ g')
          × (succeeds (env g' (request h starts)) ≡ false))

  abbrev pub Ends : Contents → Outcome (Unit {0}) → History → Type 0
  Ends d (returned (ok a)) g = state g ≡ restored
  Ends d (returned (err e)) g = Runs g × IsKept d (state g)
  Ends d (panicked s) g = state g ≡ stopped_with d

  -- The same of the part of a restore before openGauss is started after an error.
  abbrev pub Restores : Contents → Outcome (Unit {0}) → History → Type 0
  Restores d (returned (ok a)) g = state g ≡ restored
  Restores d (returned (err e)) g = IsKept d (state g)
  Restores d (panicked s) g = state g ≡ stopped_with d

  abbrev pub Reaches : (Outcome (Unit {0}) → History → Type 0) → Prog (Unit {0}) → History → Type 0
  Reaches P p g = (o : Outcome (Unit {0})) × (g' : History) × (run_from env g p ≡ (o, g')) × P o g'

  module _ (i : RestoreIn) (is : IsMachine env h state i) (d : Contents) where
    pub on_error-Operates :
        (c : Command) (f : Error → Error) (p : Prog (Unit {0})) (g : History)
        → Operates env h state i is c p g
        → Operates env h state i is c (on_error f p) g
    unfolding run_from
    on_error-Operates c f p g (inl (x, runs, bad, l)) =
        inl (f x, run_from-attempt_err env p _ _ g _ x runs, bad, l)
    on_error-Operates c f p g (inr (runs, s)) = inr (run_from-attempt env p _ _ g _ tt runs, s)

    pub started_after-Reaches :
        (e : Error) (g : History) → IsKept d (state g) → Reaches (Ends d) (started_after h e) g
    unfolding started_after OpenGauss.start run_from
    started_after-Reaches e g k = elim (operate-Operates env h state i is starts g) [
      | inl (x, runs, bad, same) ↦ (
        returned (err _),
        request h starts ∷ g,
        run_from-attempt_err env (OpenGauss.start h) _ _ g (request h starts ∷ g) x runs,
        (inr (g, refl, bad), subst (IsKept d) (sym same) k),
      )
      | inr (runs, s) ↦ (
        returned (err e),
        request h starts ∷ g,
        run_from-attempt env (OpenGauss.start h) _ _ g (request h starts ∷ g) tt runs,
        (inl (ap (λ m. m.running) s), subst (IsKept d) (sym s) k),
      )
    ]

    moved :
        (left : Option Contents)
        → IsKept d (record { running = false; pg_data = mv (some d) left; temp = none })
    moved none = inl (refl, refl)
    moved (some t) = inr (inr (inl (t, refl)))

    pub moved_back-Reaches :
        (e : Error) (g : History) (left : Option Contents)
        → state g ≡ record (stopped_with d) { pg_data = left }
        → Reaches (Restores d) (moved_back h e) g
    unfolding moved_back OpenGauss.mv_temp_to_pg_data run_from
    moved_back-Reaches e g left m = elim (operate-Operates env h state i is moves_back g) [
      | inl (x, runs, bad, same) ↦ (
        returned (err _),
        request h moves_back ∷ g,
        run_from-attempt_err env (OpenGauss.mv_temp_to_pg_data h) _ _ g (request h moves_back ∷ g) x
            runs,
        subst (IsKept d) (sym (same ∙ m)) (inr (inl refl)),
      )
      | inr (runs, s) ↦ (
        returned (err _),
        request h moves_back ∷ g,
        run_from-attempt env (OpenGauss.mv_temp_to_pg_data h) _ _ g (request h moves_back ∷ g) tt
            runs,
        subst (IsKept d) (sym (rw m at s)) (moved left),
      )
    ]

    abbrev pub cleaning : Prog (Unit {0})
    cleaning =
        on_error (wrap "pkg.OG.CleanPgDataTemp return err wrap: ") (OpenGauss.clean_pg_data_temp h)
        >> on_error (wrap "pkg.OG.Start return err wrap: ") (OpenGauss.start h)

    -- The data is replaced, the temporary directory is still there.
    pub cleaning-Reaches :
        (g : History)
        → state g ≡ record (stopped_with d) { pg_data = some backup_data }
        → Reaches (Restores d) cleaning g
    unfolding OpenGauss.clean_pg_data_temp OpenGauss.start run_from
    cleaning-Reaches g m =
        elim (on_error-Operates cleans (wrap "pkg.OG.CleanPgDataTemp return err wrap: ")
          (OpenGauss.clean_pg_data_temp h) g (operate-Operates env h state i is cleans g)) [
            | inl (x, runs, bad, same) ↦ (
              returned (err _),
              request h cleans ∷ g,
              run_from-attempt_err env _ _ _ g (request h cleans ∷ g) x runs,
              inr (inr (inr (same.1 ∙ ap (λ m. m.pg_data) m))),
            )
            | inr (runs, s) ↦
                let on =
                  run_from-attempt env
                    (on_error (wrap "pkg.OG.CleanPgDataTemp return err wrap: ")
                      (OpenGauss.clean_pg_data_temp h))
                    _ (λ _. on_error (wrap "pkg.OG.Start return err wrap: ") (OpenGauss.start h)) g
                    (request h cleans ∷ g) tt runs in
                started (rw m at s) on
          ]
      where
        started :
            state (request h cleans ∷ g) ≡ record restored { running = false }
            → run_from env g cleaning
              ≡ run_from env
                  (request h cleans ∷ g)
                  (on_error (wrap "pkg.OG.Start return err wrap: ") (OpenGauss.start h))
            → Reaches (Restores d) cleaning g
        started m on =
            elim (on_error-Operates starts (wrap "pkg.OG.Start return err wrap: ")
              (OpenGauss.start h) (request h cleans ∷ g)
              (operate-Operates env h state i is starts (request h cleans ∷ g))) [
                | inl (x, runs, bad, same) ↦ (
                  returned (err x),
                  request h starts ∷ request h cleans ∷ g,
                  on ∙ runs,
                  inr (inr (inr (ap (λ m. m.pg_data) (same ∙ m)))),
                )
                | inr (runs, s) ↦ (
                  returned (ok tt),
                  request h starts ∷ request h cleans ∷ g,
                  on ∙ runs,
                  rw m at s,
                )
              ]
