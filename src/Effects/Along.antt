-- ===== src/Effects/Along.antt =====
-- The run of a program along one environment, of which something is known.
use shardingsphere_on_cloud.Prelude.{
  ◌≡◌, Bool, true, false, if◌then◌else◌, [], ◌∷◌, All, sym, subst,
}
use shardingsphere_on_cloud.Go.{Error, ok, err}
use shardingsphere_on_cloud.Effects.{Request, Prog, done, panic, ask, attempt, call, Response}
use shardingsphere_on_cloud.Effects.Run.{Env, History, run, run_from}
use shardingsphere_on_cloud.Effects.Avoids.{Fails, Avoids}

module _ (env : Env) (t : Request → Bool) where
  -- The run makes no request that passes the test, and its value satisfies `Q`.
  abbrev pub Along : {A : Type 0} → (A → Type 0) → History → Prog A → Type 0
  Along Q h (done (ok a)) = Q a
  Along Q h (done (err x)) = Unit
  Along Q h (panic s) = Unit
  Along Q h (ask q k) = Fails t q × Along Q (q ∷ h) (k (env h q))

  pub Along-Avoids : {A : Type 0} (h : History) (m : Prog A) → Avoids t m → Along (λ _. Unit) h m
  Along-Avoids h (done (ok a)) v = tt
  Along-Avoids h (done (err x)) v = tt
  Along-Avoids h (panic s) v = tt
  Along-Avoids h (ask q k) v = (v.0, Along-Avoids (q ∷ h) (k (env h q)) (v.1 (env h q)))

  pub Along-attempt :
      {A B : Type 0} (Q : A → Type 0) (h : History) (m : Prog A) (e : Error → Prog B)
      (k : A → Prog B)
      → Along Q h m
      → ((x : Error) → Avoids t (e x))
      → ((a : A) → Q a → Avoids t (k a))
      → Along (λ _. Unit) h (attempt m e k)
  unfolding attempt
  Along-attempt Q h (done (ok a)) e k l v c = Along-Avoids h (k a) (c a l)
  Along-attempt Q h (done (err x)) e k l v c = Along-Avoids h (e x) (v x)
  Along-attempt Q h (panic s) e k l v c = tt
  Along-attempt Q h (ask q f) e k l v c = (l.0, Along-attempt Q (q ∷ h) (f (env h q)) e k l.1 v c)

  -- What avoids the test comes first, and the rest is along every history.
  pub Along-after :
      {A B : Type 0} (Q : B → Type 0) (h : History) (m : Prog A) (k : A → Prog B)
      → Avoids t m
      → ((a : A) (g : History) → Along Q g (k a))
      → Along Q h (attempt m (λ x. done (err x)) k)
  unfolding attempt
  Along-after Q h (done (ok a)) k v c = c a h
  Along-after Q h (done (err x)) k v c = tt
  Along-after Q h (panic s) k v c = tt
  Along-after Q h (ask q f) k v c = (v.0, Along-after Q (q ∷ h) (f (env h q)) k (v.1 (env h q)) c)

  pub Along-if :
      {A : Type 0} (b : Bool) (m n : Prog A) (h : History)
      → Along (λ _. Unit) h m
      → Along (λ _. Unit) h n
      → Along (λ _. Unit) h (if b then m else n)
  Along-if true m n h a c = a
  Along-if false m n h a c = c

  pub Along-call :
      (q : Request) (a : Response q) (Q : Response q → Type 0) (h : History)
      → Fails t q
      → env h q ≡ ok a
      → Q a
      → Along Q h (call q)
  Along-call q a Q h f e l = (f, subst (λ r. Along Q (q ∷ h) (done r)) (sym e) l)

  Along-run_from :
      {A : Type 0} (Q : A → Type 0) (h : History) (m : Prog A)
      → All (Fails t) h
      → Along Q h m
      → All (Fails t) (run_from env h m).1
  unfolding run_from
  Along-run_from Q h (done (ok a)) f l = f
  Along-run_from Q h (done (err x)) f l = f
  Along-run_from Q h (panic s) f l = f
  Along-run_from Q h (ask q k) f l = Along-run_from Q (q ∷ h) (k (env h q)) (l.0, f) l.1

  pub Along-run :
      {A : Type 0} (Q : A → Type 0) (m : Prog A) → Along Q [] m → All (Fails t) (run env m).1
  unfolding run
  Along-run Q m l = Along-run_from Q [] m tt l
