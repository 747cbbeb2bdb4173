-- ===== src/Effects/Only.antt =====
-- Programs all of whose requests satisfy a predicate.
use shardingsphere_on_cloud.Prelude.{◌≡◌, refl, Bool, true, false, [], ◌∷◌, All, if◌then◌else◌}
use shardingsphere_on_cloud.Go.{Error, Result, ok, err}
use shardingsphere_on_cloud.Effects.{Request, Response, Prog, done, panic, ask, attempt}
use shardingsphere_on_cloud.Effects.Run.{History, Env, run, Always, Always-run}

abbrev pub Only : {A : Type 0} → (Request → Type 0) → Prog A → Type 0
Only P (done r) = Unit
Only P (panic s) = Unit
Only P (ask q k) = P q × ((r : Result (Response q)) → Only P (k r))

module _ (P : Request → Type 0) where
  pub Only-attempt :
      {A B : Type 0} (m : Prog A) (e : Error → Prog B) (k : A → Prog B)
      → Only P m
      → ((x : Error) → Only P (e x))
      → ((a : A) → Only P (k a))
      → Only P (attempt m e k)
  unfolding attempt
  Only-attempt (done (ok a)) e k o h c = c a
  Only-attempt (done (err x)) e k o h c = h x
  Only-attempt (panic s) e k o h c = tt
  Only-attempt (ask q f) e k o h c = (o.0, λ r. Only-attempt (f r) e k (o.1 r) h c)

  -- A check that makes no request: what follows may use that it succeeded.
  pub Only-done :
      {A B : Type 0} (r : Result A) (k : A → Prog B)
      → ((a : A) → r ≡ ok a → Only P (k a))
      → Only P (attempt (done r) (λ x. done (err x)) k)
  unfolding attempt
  Only-done (ok a) k c = c a refl
  Only-done (err x) k c = tt

  pub Only-if :
      {A : Type 0} (b : Bool) (m n : Prog A)
      → Only P m
      → (b ≡ false → Only P n)
      → Only P (if b then m else n)
  Only-if true m n a c = a
  Only-if false m n a c = c refl

  Only-Always :
      {A : Type 0} (h : History) (m : Prog A) → All P h → Only P m → Always (λ _ g. All P g) h m
  Only-Always h (done r) f o = f
  Only-Always h (panic s) f o = f
  Only-Always h (ask q k) f o = λ r. Only-Always (q ∷ h) (k r) (o.0, f) (o.1 r)

  pub Only-run : {A : Type 0} (env : Env) (m : Prog A) → Only P m → All P (run env m).1
  Only-run env m o = Always-run (λ _ g. All P g) env m (Only-Always [] m tt o)

  -- Moreover each value that the program returns satisfies `Q`.
  abbrev pub Yields : {A : Type 0} → (A → Type 0) → Prog A → Type 0
  Yields Q (done (ok a)) = Q a
  Yields Q (done (err x)) = Unit
  Yields Q (panic s) = Unit
  Yields Q (ask q k) = P q × ((r : Result (Response q)) → Yields Q (k r))

  pub Yields-done :
      {A B : Type 0} (Q : B → Type 0) (r : Result A) (k : A → Prog B)
      → ((a : A) → r ≡ ok a → Yields Q (k a))
      → Yields Q (attempt (done r) (λ x. done (err x)) k)
  unfolding attempt
  Yields-done Q (ok a) k c = c a refl
  Yields-done Q (err x) k c = tt

  pub Yields-bind :
      {A B : Type 0} (Q : A → Type 0) (R : B → Type 0) (m : Prog A) (k : A → Prog B)
      → Yields Q m
      → ((a : A) → Q a → Yields R (k a))
      → Yields R (attempt m (λ x. done (err x)) k)
  unfolding attempt
  Yields-bind Q R (done (ok a)) k y c = c a y
  Yields-bind Q R (done (err x)) k y c = tt
  Yields-bind Q R (panic s) k y c = tt
  Yields-bind Q R (ask q f) k y c = (y.0, λ r. Yields-bind Q R (f r) k (y.1 r) c)

  pub Only-Yields :
      {A B : Type 0} (Q : A → Type 0) (m : Prog A) (k : A → Prog B)
      → Yields Q m
      → ((a : A) → Q a → Only P (k a))
      → Only P (attempt m (λ x. done (err x)) k)
  unfolding attempt
  Only-Yields Q (done (ok a)) k y c = c a y
  Only-Yields Q (done (err x)) k y c = tt
  Only-Yields Q (panic s) k y c = tt
  Only-Yields Q (ask q f) k y c = (y.0, λ r. Only-Yields Q (f r) k (y.1 r) c)

  pub Yields-if :
      {A : Type 0} (Q : A → Type 0) (b : Bool) (m n : Prog A)
      → (b ≡ true → Yields Q m)
      → (b ≡ false → Yields Q n)
      → Yields Q (if b then m else n)
  Yields-if Q true m n a c = a refl
  Yields-if Q false m n a c = c refl

  pub Yields-pair :
      {A : Type 0} (Q R : A → Type 0) (m : Prog A)
      → Yields Q m
      → Yields R m
      → Yields (λ a. Q a × R a) m
  Yields-pair Q R (done (ok a)) q r = (q, r)
  Yields-pair Q R (done (err x)) q r = tt
  Yields-pair Q R (panic s) q r = tt
  Yields-pair Q R (ask p k) q r = (q.0, λ a. Yields-pair Q R (k a) (q.1 a) (r.1 a))

  pub Yields-mono :
      {A : Type 0} (Q R : A → Type 0) (m : Prog A) → ((a : A) → Q a → R a) → Yields Q m → Yields R m
  Yields-mono Q R (done (ok a)) w q = w a q
  Yields-mono Q R (done (err x)) w q = tt
  Yields-mono Q R (panic s) w q = tt
  Yields-mono Q R (ask p k) w q = (q.0, λ a. Yields-mono Q R (k a) w (q.1 a))

  pub Yields-result :
      {A : Type 0} (Q : A → Type 0) (r : Result A) → ((a : A) → r ≡ ok a → Q a) → Yields Q (done r)
  Yields-result Q (ok a) c = c a refl
  Yields-result Q (err x) c = tt
