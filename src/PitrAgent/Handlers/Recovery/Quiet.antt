-- ===== src/PitrAgent/Handlers/Recovery/Quiet.antt =====
-- Programs that return and leave the host as it is, as the authentication does.
use shardingsphere_on_cloud.Prelude.{
  ℕ, String, ◌≡◌, refl, ◌∙◌, Bool, true, false, if◌then◌else◌, ◌∷◌, ◌||◌, eqb,
}
use shardingsphere_on_cloud.Go.Text.{is_blank}
use shardingsphere_on_cloud.Go.{Error, Result, ok, err}
use shardingsphere_on_cloud.Effects.{Request, Prog, done, call, attempt}
use shardingsphere_on_cloud.Effects.Run.{
  Env, History, returned, run_from, run_from-attempt, run_from-attempt_err,
}
use shardingsphere_on_cloud.Pitr.Model.{HealthCheckIn, RestoreIn}
use shardingsphere_on_cloud.PitrAgent.Host.{Host}
use shardingsphere_on_cloud.PitrAgent.Gsutil as Gsutil
use shardingsphere_on_cloud.PitrAgent.OpenGauss as OpenGauss
use shardingsphere_on_cloud.PitrAgent.Handlers.{authenticate}
use shardingsphere_on_cloud.PitrAgent.Handlers.Recovery.{Machine, IsMachine}

module _ (env : Env) (state : History → Machine) where
  unfoldable pub Quiet : {A : Type 0} → Prog A → History → Type 0
  Quiet {A} p g =
      (r : Result A) × (g' : History) × (run_from env g p ≡ (returned r, g')) × (state g' ≡ state g)

  Quiet-done : {A : Type 0} (r : Result A) (g : History) → Quiet (done r) g
  unfolding Quiet run_from
  Quiet-done r g = (r, g, refl, refl)

  Quiet-call : (q : Request) (g : History) → state (q ∷ g) ≡ state g → Quiet (call q) g
  unfolding Quiet run_from
  Quiet-call q g s = (env g q, q ∷ g, refl, s)

  Quiet-if :
      {A : Type 0} (b : Bool) (m n : Prog A) (g : History)
      → Quiet m g
      → Quiet n g
      → Quiet (if b then m else n) g
  Quiet-if true m n g a c = a
  Quiet-if false m n g a c = c

  pub Quiet-attempt :
      {A B : Type 0} (p : Prog A) (e : Error → Prog B) (k : A → Prog B) (g : History)
      → Quiet p g
      → ((x : Error) (g : History) → Quiet (e x) g)
      → ((a : A) (g : History) → Quiet (k a) g)
      → Quiet (attempt p e k) g
  unfolding Quiet
  Quiet-attempt p e k g (ok a, g', runs, s) recovers next =
      let (r, end, on, t) = next a g' in
      (r, end, run_from-attempt env p e k g g' a runs ∙ on, t ∙ s)
  Quiet-attempt p e k g (err x, g', runs, s) recovers next =
      let (r, end, on, t) = recovers x g' in
      (r, end, run_from-attempt_err env p e k g g' x runs ∙ on, t ∙ s)

  module _ (h : Host) (i : RestoreIn) (is : IsMachine env h state i) where
    open_db-Quiet :
        (user password db_name : String) (port : ℕ) (g : History)
        → Quiet (Gsutil.open_db h user password db_name port) g
    unfolding Gsutil.open_db
    open_db-Quiet user password db_name port g = Quiet-if (is_blank user) _ _ g (Quiet-done _ g) (
        Quiet-if (is_blank password) _ _ g (Quiet-done _ g) (
          Quiet-if (is_blank db_name) _ _ g (Quiet-done _ g) (
            Quiet-attempt _ _ _ g (Quiet-call _ g (is.opens g _)) (λ x g. Quiet-done _ g)
              (λ a g. Quiet-done _ g))))

    ping-Quiet : (g : History) → Quiet (Gsutil.ping h) g
    unfolding Gsutil.ping
    ping-Quiet g =
        Quiet-attempt _ _ _ g (Quiet-call _ g (is.pings g)) (λ x g. Quiet-done _ g)
          (λ a g. Quiet-call _ g (is.closes g))

    pub authenticate-Quiet : (db : HealthCheckIn) (g : History) → Quiet (authenticate h db) g
    unfolding authenticate OpenGauss.auth
    authenticate-Quiet db g =
        Quiet-attempt _ _ _ g
          (Quiet-if
            (is_blank db.username
              || (is_blank db.password || (is_blank db.db_name || eqb db.db_port 0)))
            _ _ g (Quiet-done _ g)
            (Quiet-attempt _ _ _ g (open_db-Quiet db.username db.password db.db_name db.db_port g)
              (λ x g. Quiet-done _ g) (λ a g. ping-Quiet g)))
          (λ x g. Quiet-done _ g) (λ a g. Quiet-done _ g)
