-- ===== src/PitrAgent/Handlers/Recovery/Commands.antt =====
-- The commands of a restore, each run on the host.
use shardingsphere_on_cloud.Prelude.{
  String, ◌≡◌, ◌⊎◌, inl, inr, refl, ap, ◌∙◌, true, false, Option, none, some, List, ◌∷◌,
}
use shardingsphere_on_cloud.Go.{Error, Result, ok, err, cite}
use shardingsphere_on_cloud.Effects.{Prog, attempt}
use shardingsphere_on_cloud.Effects.Run.{Env, History, returned, panicked, run_from}
use shardingsphere_on_cloud.Pitr.Model.{RestoreIn}
use shardingsphere_on_cloud.PitrAgent.Requests.{
  exited, exit_error, unwaited, Ran, no_stdout, no_stderr, ran, Streamed,
}
use shardingsphere_on_cloud.PitrAgent.Host.{Host}
use shardingsphere_on_cloud.PitrAgent.Cmds.{exec, async_exec, outputs, Output, finished}
use shardingsphere_on_cloud.PitrAgent.OpenGauss as OpenGauss
use shardingsphere_on_cloud.PitrAgent.OpenGauss.{operate, first_error}
use shardingsphere_on_cloud.PitrAgent.Handlers.Recovery.{
  Command, Machine, Contents, command, request, step, Leaves, succeeds, Recovered, Read, Restored,
  IsMachine, restore_request, backup_data,
}

finished-cases :
    (h : Host) (r : Ran)
    → ((x : Error) × (finished h r ≡ err x) × (succeeds (ok r) ≡ false))
      ⊎ ((out : String) × (finished h r ≡ ok out) × (succeeds (ok r) ≡ true))
finished-cases h (no_stdout e) = inl (_, refl, refl)
finished-cases h (no_stderr e) = inl (_, refl, refl)
finished-cases h (ran (err e) x w) = inl (_, refl, refl)
finished-cases h (ran (ok out) (err e) w) = inl (_, refl, refl)
finished-cases h (ran (ok out) (ok e) exited) = inr (out, refl, refl)
finished-cases h (ran (ok out) (ok e) (exit_error x)) = inl (_, refl, refl)
finished-cases h (ran (ok out) (ok e) (unwaited x)) = inl (_, refl, refl)

module _ (env : Env) (h : Host) (state : History → Machine) (i : RestoreIn)
    (is : IsMachine env h state i) where
  -- A command is run: it returns an error, or nothing once it has had its effect.
  abbrev pub Operates : Command → Prog (Unit {0}) → History → Type 0
  Operates c p g =
      ((x : Error) × (run_from env g p ≡ (returned (err x), request h c ∷ g))
        × (succeeds (env g (request h c)) ≡ false)
        × Leaves c (state g) (state (request h c ∷ g)))
      ⊎ ((run_from env g p ≡ (returned (ok tt), request h c ∷ g))
          × (state (request h c ∷ g) ≡ step c (state g)))

  pub operate-Operates : (c : Command) (g : History) → Operates c (operate h (command h c)) g
  unfolding operate exec attempt run_from
  operate-Operates c g = answered (env g (request h c)) refl
    where
      answered : (r : Result Ran) → env g (request h c) ≡ r → Operates c (operate h (command h c)) g
      answered (err e) p =
          inl (cite "the command is err:" e, rw p refl, ap succeeds p, is.stays g c (ap succeeds p))
      answered (ok r) p = elim (finished-cases h r) [
        | inl (x, f, s) ↦
            let no = ap succeeds p ∙ s in inl (x, rw p (rw f refl), no, is.stays g c no)
        | inr (out, f, s) ↦ inr (rw p (rw f refl), is.steps g c (ap succeeds p ∙ s))
      ]

  -- The restore is run: it never returns and has done nothing, or it returns an error and leaves any
  -- data directory, or it returns nothing and the data is that of the backup.
  abbrev pub Recovers : Prog (Unit {0}) → History → Type 0
  Recovers p g =
      ((s : String) × (run_from env g p ≡ (panicked s, restore_request h i ∷ g))
        × (state (restore_request h i ∷ g) ≡ state g))
      ⊎ (((x : Error) × (left : Option Contents) × (run_from env g p
              ≡ (returned (err x), restore_request h i ∷ g))
            × (state (restore_request h i ∷ g) ≡ record (state g) { pg_data = left }))
          ⊎ ((run_from env g p ≡ (returned (ok tt), restore_request h i ∷ g))
              × (state (restore_request h i ∷ g)
                  ≡ record (state g) { pg_data = some backup_data })))

  abbrev recovery : Prog (Unit {0})
  recovery = OpenGauss.restore h i.dn_backup_path i.instance_name i.dn_backup_id i.dn_threads_num

  pub restore-Recovers : (g : History) → Recovers recovery g
  unfolding OpenGauss.restore async_exec attempt run_from
  restore-Recovers g = answered (env g (restore_request h i)) refl (is.restores g)
    where
      listed :
          (s : Streamed) (os : List Output) (f : Option Error)
          → env g (restore_request h i) ≡ ok s
          → outputs h s ≡ ok os
          → first_error os ≡ f
          → Recovered f (state g) (state (restore_request h i ∷ g))
          → Recovers recovery g
      listed s os none p o f m = inr (inr (rw p (rw o (rw f refl)), m))
      listed s os (some e) p o f m = inr (inl (e, m.0, rw p (rw o (rw f refl)), m.1))

      read :
          (s : Streamed) (os : Result (List Output))
          → env g (restore_request h i) ≡ ok s
          → outputs h s ≡ os
          → Read os (state g) (state (restore_request h i ∷ g))
          → Recovers recovery g
      read s (err e) p o m = inl ("receive from a nil channel", rw p (rw o refl), m)
      read s (ok os) p o m = listed s os (first_error os) p o refl m

      answered :
          (r : Result Streamed)
          → env g (restore_request h i) ≡ r
          → Restored h r (state g) (state (restore_request h i ∷ g))
          → Recovers recovery g
      answered (err e) p m = inl ("receive from a nil channel", rw p refl, m)
      answered (ok s) p m = read s (outputs h s) p refl m
