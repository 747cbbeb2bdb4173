-- ===== src/Effects/Guards.antt =====
-- Programs that make requests of some kind only after a request had an answer of some kind.
use shardingsphere_on_cloud.Prelude.{
  ◌≡◌, refl, ◌⊎◌, inl, inr, Bool, true, false, [], ◌∷◌, if◌then◌else◌, arith,
}
use shardingsphere_on_cloud.Go.{Error, Result, ok, err}
use shardingsphere_on_cloud.Effects.{Request, Response, Prog, done, panic, ask, attempt}
use shardingsphere_on_cloud.Effects.Run.{Env, History, run, run_from}
use shardingsphere_on_cloud.Effects.Avoids.{Fails, Avoids, occurs}
use shardingsphere_on_cloud.Effects.Never.{Never}
use shardingsphere_on_cloud.Effects.Succeeds.{Succeeds, Answered, Answered-later}

-- Each path makes no request that passes the test before it has an answer of `T`.
abbrev pub Guards :
    {A : Type 0}
    → ((q : Request) → Result (Response q) → Type 0)
    → (Request → Bool)
    → Prog A
    → Type 0
Guards T t (done r) = Unit
Guards T t (panic s) = Unit
Guards T t (ask q k) = Fails t q × ((r : Result (Response q)) → T q r ⊎ Guards T t (k r))

-- An answer of no kind was never given.
pub Answered-none : (env : Env) (h : History) → Answered env (λ _ _. ⊥) h → ⊥
Answered-none env [] a = a
Answered-none env (q ∷ h) (inl a) = a
Answered-none env (q ∷ h) (inr a) = Answered-none env h a

module _ (T : (q : Request) → Result (Response q) → Type 0) where
  pub Succeeds-Never : {A : Type 0} (m : Prog A) → Never m → Succeeds T (λ _. ⊥) m
  Succeeds-Never (done (ok a)) n = n
  Succeeds-Never (done (err x)) n = tt
  Succeeds-Never (panic s) n = tt
  Succeeds-Never (ask q k) n = λ r. inr (Succeeds-Never (k r) (n r))

  module _ (t : Request → Bool) where
    pub Guards-avoiding : {A : Type 0} (m : Prog A) → Avoids t m → Guards T t m
    Guards-avoiding (done r) a = tt
    Guards-avoiding (panic s) a = tt
    Guards-avoiding (ask q k) a = (a.0, λ r. inr (Guards-avoiding (k r) (a.1 r)))

    pub Guards-attempt :
        {A B : Type 0} (m : Prog A) (e : Error → Prog B) (k : A → Prog B)
        → Avoids t m
        → ((x : Error) → Guards T t (e x))
        → ((a : A) → Guards T t (k a))
        → Guards T t (attempt m e k)
    unfolding attempt
    Guards-attempt (done (ok a)) e k m h c = c a
    Guards-attempt (done (err x)) e k m h c = h x
    Guards-attempt (panic s) e k m h c = tt
    Guards-attempt (ask q f) e k m h c = (m.0, λ r. inr (Guards-attempt (f r) e k (m.1 r) h c))

    -- What returns only after such an answer leads on to anything.
    pub Guards-first :
        {A B : Type 0} (m : Prog A) (e : Error → Prog B) (k : A → Prog B)
        → Succeeds T (λ _. ⊥) m
        → Avoids t m
        → ((x : Error) → Avoids t (e x))
        → Guards T t (attempt m e k)
    unfolding attempt
    Guards-first (done (ok a)) e k s m h = absurd s
    Guards-first (done (err x)) e k s m h = Guards-avoiding (e x) (h x)
    Guards-first (panic p) e k s m h = tt
    Guards-first (ask q f) e k s m h = (
      m.0,
      λ r. elim (s r) [ inl a ↦ inl a | inr rest ↦ inr (Guards-first (f r) e k rest (m.1 r) h) ],
    )

    pub Guards-if :
        {A : Type 0} (b : Bool) (m n : Prog A)
        → Guards T t m
        → Guards T t n
        → Guards T t (if b then m else n)
    Guards-if true m n a c = a
    Guards-if false m n a c = c

    Guards-run_from :
        {A : Type 0} (env : Env) (h : History) (m : Prog A)
        → Guards T t m
        → occurs t h ≡ false
        → occurs t (run_from env h m).1 ≡ true
        → Answered env T (run_from env h m).1
    unfolding run_from
    Guards-run_from env h (done r) g n o = cc
    Guards-run_from env h (panic s) g n o = cc
    Guards-run_from env h (ask q k) g n o = elim (g.1 (env h q)) [
      | inl a ↦ Answered-later T env (q ∷ h) (k (env h q)) (inl a)
      | inr rest ↦ Guards-run_from env (q ∷ h) (k (env h q)) rest (ground arith) o
    ]

    pub Guards-run :
        {A : Type 0} (env : Env) (m : Prog A)
        → Guards T t m
        → occurs t (run env m).1 ≡ true
        → Answered env T (run env m).1
    unfolding run
    Guards-run env m g o = Guards-run_from env [] m g refl o
