-- ===== src/Effects/Never.antt =====
-- Programs that never return a value.
use shardingsphere_on_cloud.Prelude.{◌≡◌, ◌≢◌, Bool, true, false, [], ◌∷◌, if◌then◌else◌}
use shardingsphere_on_cloud.Go.{Error, Result, ok, err}
use shardingsphere_on_cloud.Effects.{Request, Response, Prog, done, panic, ask, attempt, deferring}
use shardingsphere_on_cloud.Effects.Run.{History, Env, returned, run, run_from}

-- Each path ends in an error or a panic.
abbrev pub Never : {A : Type 0} → Prog A → Type 0
Never (done (ok a)) = ⊥
Never (done (err x)) = Unit
Never (panic s) = Unit
Never (ask q k) = (r : Result (Response q)) → Never (k r)

pub Never-first :
    {A B : Type 0} (m : Prog A) (k : A → Prog B) → Never m → Never (attempt m (λ x. done (err x)) k)
unfolding attempt
Never-first (done (ok a)) k n = absurd n
Never-first (done (err x)) k n = tt
Never-first (panic s) k n = tt
Never-first (ask q f) k n = λ r. Never-first (f r) k (n r)

pub Never-then :
    {A B : Type 0} (m : Prog A) (k : A → Prog B)
    → ((a : A) → Never (k a))
    → Never (attempt m (λ x. done (err x)) k)
unfolding attempt
Never-then (done (ok a)) k c = c a
Never-then (done (err x)) k c = tt
Never-then (panic s) k c = tt
Never-then (ask q f) k c = λ r. Never-then (f r) k c

pub Never-deferring : {A : Type 0} (q : Request) (m : Prog A) → Never m → Never (deferring q m)
unfolding deferring
Never-deferring q (done (ok a)) n = absurd n
Never-deferring q (done (err x)) n = λ _. tt
Never-deferring q (panic s) n = λ _. tt
Never-deferring q (ask p k) n = λ r. Never-deferring q (k r) (n r)

pub Never-else :
    {A : Type 0} (b : Bool) (m n : Prog A) → b ≡ false → Never n → Never (if b then m else n)
Never-else true m n e x = cc
Never-else false m n e x = x

pub Never-on_error :
    {A : Type 0} (f : Error → Error) (m : Prog A)
    → Never m
    → Never (attempt m (λ x. done (err (f x))) (λ a. done (ok a)))
unfolding attempt
Never-on_error f (done (ok a)) n = absurd n
Never-on_error f (done (err x)) n = tt
Never-on_error f (panic s) n = tt
Never-on_error f (ask q k) n = λ r. Never-on_error f (k r) (n r)

pub Never-if :
    {A : Type 0} (b : Bool) (m n : Prog A) → Never m → Never n → Never (if b then m else n)
Never-if true m n x y = x
Never-if false m n x y = y

Never-run_from :
    {A : Type 0} (env : Env) (h : History) (m : Prog A) (a : A)
    → Never m
    → (run_from env h m).0 ≢ returned (ok a)
unfolding run_from
Never-run_from env h (done (ok b)) a n = absurd n
Never-run_from env h (done (err x)) a n = λ p. cc
Never-run_from env h (panic s) a n = λ p. cc
Never-run_from env h (ask q k) a n = Never-run_from env (q ∷ h) (k (env h q)) a (n (env h q))

pub Never-run :
    {A : Type 0} (env : Env) (m : Prog A) (a : A) → Never m → (run env m).0 ≢ returned (ok a)
unfolding run
Never-run env m a n = Never-run_from env [] m a n
