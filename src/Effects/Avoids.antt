-- ===== src/Effects/Avoids.antt =====
-- Programs that never make a request of some kind, and the order of two kinds of request.
use shardingsphere_on_cloud.Prelude.{
  ◌≡◌, Bool, true, false, ◌||◌, [], ◌∷◌, All, if◌then◌else◌, arith, String,
}
use shardingsphere_on_cloud.Go.{Error, Result, ok, err}
use shardingsphere_on_cloud.Effects.{
  Request, Response, Prog, done, panic, ask, attempt, call, deferring, event, record_event,
}
use shardingsphere_on_cloud.Effects.Run.{Env, History, run, Always, Always-run}

-- The request does not pass the test.
abbrev pub Fails : (Request → Bool) → Request → Type 0
Fails t q = t q ≡ false

-- A request of the history passes the test.
abbrev pub occurs : (Request → Bool) → History → Bool
occurs t [] = false
occurs t (q ∷ h) = t q || occurs t h

-- No request on any path of the program passes the test.
abbrev pub Avoids : {A : Type 0} → (Request → Bool) → Prog A → Type 0
Avoids t (done r) = Unit
Avoids t (panic s) = Unit
Avoids t (ask q k) = Fails t q × ((r : Result (Response q)) → Avoids t (k r))

module _ (t : Request → Bool) where
  pub Avoids-attempt :
      {A B : Type 0} (m : Prog A) (e : Error → Prog B) (k : A → Prog B)
      → Avoids t m
      → ((x : Error) → Avoids t (e x))
      → ((a : A) → Avoids t (k a))
      → Avoids t (attempt m e k)
  unfolding attempt
  Avoids-attempt (done (ok a)) e k m h c = c a
  Avoids-attempt (done (err x)) e k m h c = h x
  Avoids-attempt (panic s) e k m h c = tt
  Avoids-attempt (ask q f) e k m h c = (m.0, λ r. Avoids-attempt (f r) e k (m.1 r) h c)

  pub Avoids-call : (q : Request) → Fails t q → Avoids t (call q)
  Avoids-call q f = (f, λ _. tt)

  pub Avoids-event : (reason : String) → Fails t (record_event reason) → Avoids t (event reason)
  Avoids-event reason f = (f, λ _. tt)

  pub Avoids-bind :
      {A B : Type 0} (m : Prog A) (k : A → Prog B)
      → Avoids t m
      → ((a : A) → Avoids t (k a))
      → Avoids t (attempt m (λ x. done (err x)) k)
  Avoids-bind m k a c = Avoids-attempt m (λ x. done (err x)) k a (λ _. tt) c

  pub Avoids-on_error :
      {A : Type 0} (f : Error → Error) (m : Prog A)
      → Avoids t m
      → Avoids t (attempt m (λ x. done (err (f x))) (λ a. done (ok a)))
  Avoids-on_error f m a =
      Avoids-attempt m (λ x. done (err (f x))) (λ v. done (ok v)) a (λ _. tt) (λ _. tt)

  pub Avoids-deferring :
      {A : Type 0} (q : Request) (m : Prog A) → Fails t q → Avoids t m → Avoids t (deferring q m)
  unfolding deferring
  Avoids-deferring q (done r) f a = (f, λ _. tt)
  Avoids-deferring q (panic s) f a = (f, λ _. tt)
  Avoids-deferring q (ask p k) f a = (a.0, λ r. Avoids-deferring q (k r) f (a.1 r))

  pub Avoids-if :
      {A : Type 0} (b : Bool) (m n : Prog A)
      → Avoids t m
      → Avoids t n
      → Avoids t (if b then m else n)
  Avoids-if true m n a c = a
  Avoids-if false m n a c = c

  pub Avoids-Always :
      {A : Type 0} (h : History) (m : Prog A)
      → All (Fails t) h
      → Avoids t m
      → Always (λ _ g. All (Fails t) g) h m
  Avoids-Always h (done r) f a = f
  Avoids-Always h (panic s) f a = f
  Avoids-Always h (ask q k) f a = λ r. Avoids-Always (q ∷ h) (k r) (a.0, f) (a.1 r)

  -- A run of a program that avoids a kind of request makes no such request.
  pub Avoids-run : {A : Type 0} (env : Env) (m : Prog A) → Avoids t m → All (Fails t) (run env m).1
  Avoids-run env m a = Always-run (λ _ g. All (Fails t) g) env m (Avoids-Always [] m tt a)

-- What avoids the requests of a test avoids those of a stricter one.
pub Avoids-weaken :
    (t u : Request → Bool) {A : Type 0} (m : Prog A)
    → ((q : Request) → Fails t q → Fails u q)
    → Avoids t m
    → Avoids u m
Avoids-weaken t u (done r) w a = tt
Avoids-weaken t u (panic s) w a = tt
Avoids-weaken t u (ask q k) w a = (w q a.0, λ r. Avoids-weaken t u (k r) w (a.1 r))

pub ruleset avoid_rules = (Avoids-if, Avoids-bind, Avoids-on_error, Avoids-call, Avoids-event)

-- Before each request that passes `late`, one that passes `early` was made.
abbrev pub Precedes : (early late : Request → Bool) → History → Type 0
Precedes early late [] = Unit
Precedes early late (q ∷ h) = (late q ≡ true → occurs early h ≡ true) × Precedes early late h

module _ (early late : Request → Bool) where
  pub Precedes-once :
      {A : Type 0} (h : History) (m : Prog A)
      → occurs early h ≡ true
      → Precedes early late h
      → Always (λ _ g. Precedes early late g) h m
  Precedes-once h (done r) o p = p
  Precedes-once h (panic s) o p = p
  Precedes-once h (ask q k) o p = λ r. Precedes-once (q ∷ h) (k r) (ground arith) ((λ _. o), p)

  pub Precedes-avoiding :
      {A : Type 0} (h : History) (m : Prog A)
      → Avoids late m
      → Precedes early late h
      → Always (λ _ g. Precedes early late g) h m
  Precedes-avoiding h (done r) a p = p
  Precedes-avoiding h (panic s) a p = p
  Precedes-avoiding h (ask q k) a p =
      λ r. Precedes-avoiding (q ∷ h) (k r) (a.1 r) ((λ e. cc (e, a.0)), p)
