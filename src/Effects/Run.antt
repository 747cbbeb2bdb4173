-- ===== src/Effects/Run.antt =====
-- Runs of a program against an environment, and properties of all runs.
use shardingsphere_on_cloud.Prelude.{String, ◌≡◌, Bool, true, false, List, [], ◌∷◌, if◌then◌else◌}
use shardingsphere_on_cloud.Go.{Error, Result, ok, err}
use shardingsphere_on_cloud.Effects.{Request, Response, Prog, done, panic, ask, attempt}

-- The requests made so far, the latest first.
abbrev pub History : Type 0
History = List Request

-- An environment answers each request, knowing all that was asked before.
abbrev pub Env : Type 0
Env = History → (q : Request) → Result (Response q)

-- How a program ends.
pub data Outcome (A : Type 0) : Type 0 where
  returned : Result A → Outcome A
  panicked : String → Outcome A

unfoldable pub run_from : {A : Type 0} → Env → History → Prog A → Outcome A × History
run_from env h (done r) = (returned r, h)
run_from env h (panic s) = (panicked s, h)
run_from env h (ask q k) = run_from env (q ∷ h) (k (env h q))

-- What follows a program that returns a value goes on from its history.
pub run_from-attempt :
    {A B : Type 0} (env : Env) (p : Prog A) (e : Error → Prog B) (k : A → Prog B) (h g : History)
    (a : A)
    → run_from env h p ≡ (returned (ok a), g)
    → run_from env h (attempt p e k) ≡ run_from env g (k a)
unfolding attempt run_from
run_from-attempt env (done (ok b)) e k h g a r = cc
run_from-attempt env (done (err x)) e k h g a r = cc
run_from-attempt env (panic s) e k h g a r = cc
run_from-attempt env (ask q f) e k h g a r = run_from-attempt env (f (env h q)) e k (q ∷ h) g a r

-- What follows a program that returns an error goes on from its history as well.
pub run_from-attempt_err :
    {A B : Type 0} (env : Env) (p : Prog A) (e : Error → Prog B) (k : A → Prog B) (h g : History)
    (x : Error)
    → run_from env h p ≡ (returned (err x), g)
    → run_from env h (attempt p e k) ≡ run_from env g (e x)
unfolding attempt run_from
run_from-attempt_err env (done (ok b)) e k h g x r = cc
run_from-attempt_err env (done (err y)) e k h g x r = cc
run_from-attempt_err env (panic s) e k h g x r = cc
run_from-attempt_err env (ask q f) e k h g x r =
    run_from-attempt_err env (f (env h q)) e k (q ∷ h) g x r

pub run_from-attempt_panic :
    {A B : Type 0} (env : Env) (p : Prog A) (e : Error → Prog B) (k : A → Prog B) (h g : History)
    (s : String)
    → run_from env h p ≡ (panicked s, g)
    → run_from env h (attempt p e k) ≡ (panicked s, g)
unfolding attempt run_from
run_from-attempt_panic env (done (ok b)) e k h g x r = cc
run_from-attempt_panic env (done (err y)) e k h g x r = cc
run_from-attempt_panic env (panic s) e k h g x r = cc
run_from-attempt_panic env (ask q f) e k h g x r =
    run_from-attempt_panic env (f (env h q)) e k (q ∷ h) g x r

-- The outcome of a program, and the requests that it made, the latest first.
unfoldable pub run : {A : Type 0} → Env → Prog A → Outcome A × History
unfolding run_from
run env m = run_from env [] m

-- `P` holds of the outcome and the requests of every run, whatever the answers.
abbrev pub Always : {A : Type 0} → (Outcome A → History → Type 0) → History → Prog A → Type 0
Always P h (done r) = P (returned r) h
Always P h (panic s) = P (panicked s) h
Always P h (ask q k) = (r : Result (Response q)) → Always P (q ∷ h) (k r)

pub Always-run_from :
    {A : Type 0} (P : Outcome A → History → Type 0) (env : Env) (h : History) (m : Prog A)
    → Always P h m
    → P (run_from env h m).0 (run_from env h m).1
unfolding run_from
Always-run_from P env h (done r) a = a
Always-run_from P env h (panic s) a = a
Always-run_from P env h (ask q k) a = Always-run_from P env (q ∷ h) (k (env h q)) (a (env h q))

pub Always-run :
    {A : Type 0} (P : Outcome A → History → Type 0) (env : Env) (m : Prog A)
    → Always P [] m
    → P (run env m).0 (run env m).1
unfolding run
Always-run P env m a = Always-run_from P env [] m a

-- What a program must establish so that the rest, `e` after an error and `k` after a value,
-- establishes `P`.
abbrev pub Then :
    {A B : Type 0}
    → (Outcome B → History → Type 0)
    → (Error → Prog B)
    → (A → Prog B)
    → Outcome A
    → History
    → Type 0
Then P e k (returned (ok a)) h = Always P h (k a)
Then P e k (returned (err x)) h = Always P h (e x)
Then P e k (panicked s) h = P (panicked s) h

pub Always-attempt :
    {A B : Type 0} (P : Outcome B → History → Type 0) (h : History) (m : Prog A)
    (e : Error → Prog B) (k : A → Prog B)
    → Always (Then P e k) h m
    → Always P h (attempt m e k)
unfolding attempt
Always-attempt P h (done (ok a)) e k s = s
Always-attempt P h (done (err x)) e k s = s
Always-attempt P h (panic s) e k t = t
Always-attempt P h (ask q f) e k s = λ r. Always-attempt P (q ∷ h) (f r) e k (s r)

pub Always-mono :
    {A : Type 0} (P Q : Outcome A → History → Type 0) (h : History) (m : Prog A)
    → ((o : Outcome A) (g : History) → P o g → Q o g)
    → Always P h m
    → Always Q h m
Always-mono P Q h (done r) w a = w (returned r) h a
Always-mono P Q h (panic s) w a = w (panicked s) h a
Always-mono P Q h (ask q k) w a = λ r. Always-mono P Q (q ∷ h) (k r) w (a r)

pub Always-then :
    {A : Type 0} (P : Outcome A → History → Type 0) (h : History) (b : Bool) (m n : Prog A)
    → b ≡ true
    → Always P h m
    → Always P h (if b then m else n)
Always-then P h true m n e a = a
Always-then P h false m n e a = cc

pub Always-else :
    {A : Type 0} (P : Outcome A → History → Type 0) (h : History) (b : Bool) (m n : Prog A)
    → b ≡ false
    → Always P h n
    → Always P h (if b then m else n)
Always-else P h true m n e a = cc
Always-else P h false m n e a = a
