-- ===== src/Effects/Succeeds.antt =====
-- Programs that return a value only after a request had an answer of some kind.
use shardingsphere_on_cloud.Prelude.{
  ◌≡◌, ◌⊎◌, inl, inr, Bool, true, false, [], ◌∷◌, subst, refl, if◌then◌else◌,
}
use shardingsphere_on_cloud.Go.{Error, Result, ok, err}
use shardingsphere_on_cloud.Effects.{
  Request, Response, Prog, done, panic, ask, attempt, deferring, call,
}
use shardingsphere_on_cloud.Effects.Run.{Env, History, returned, run, run_from}

-- Each path to a value that does not satisfy `Q` makes a request with an answer of `T`.
abbrev pub Succeeds :
    {A : Type 0} → ((q : Request) → Result (Response q) → Type 0) → (A → Type 0) → Prog A → Type 0
Succeeds T Q (done (ok a)) = Q a
Succeeds T Q (done (err x)) = Unit
Succeeds T Q (panic s) = Unit
Succeeds T Q (ask q k) = (r : Result (Response q)) → T q r ⊎ Succeeds T Q (k r)

-- One of the requests made has an answer of `T`.
abbrev pub Answered : Env → ((q : Request) → Result (Response q) → Type 0) → History → Type 0
Answered env T [] = ⊥
Answered env T (q ∷ h) = T q (env h q) ⊎ Answered env T h

module _ (T : (q : Request) → Result (Response q) → Type 0) where
  pub Succeeds-call : (q : Request) → ((a : Response q) → T q (ok a)) → Succeeds T (λ _. ⊥) (call q)
  Succeeds-call q c (ok a) = inl (c a)
  Succeeds-call q c (err x) = inr tt

  pub Succeeds-then :
      {A B : Type 0} (Q : B → Type 0) (m : Prog A) (e : Error → Prog B) (k : A → Prog B)
      → ((x : Error) → Succeeds T Q (e x))
      → ((a : A) → Succeeds T Q (k a))
      → Succeeds T Q (attempt m e k)
  unfolding attempt
  Succeeds-then Q (done (ok a)) e k h c = c a
  Succeeds-then Q (done (err x)) e k h c = h x
  Succeeds-then Q (panic s) e k h c = tt
  Succeeds-then Q (ask q f) e k h c = λ r. inr (Succeeds-then Q (f r) e k h c)

  pub Succeeds-first :
      {A B : Type 0} (Q : B → Type 0) (m : Prog A) (e : Error → Prog B) (k : A → Prog B)
      → Succeeds T (λ _. ⊥) m
      → ((x : Error) → Succeeds T Q (e x))
      → Succeeds T Q (attempt m e k)
  unfolding attempt
  Succeeds-first Q (done (ok a)) e k s h = absurd s
  Succeeds-first Q (done (err x)) e k s h = h x
  Succeeds-first Q (panic p) e k s h = tt
  Succeeds-first Q (ask q f) e k s h =
      λ r. elim (s r) [ inl t ↦ inl t | inr rest ↦ inr (Succeeds-first Q (f r) e k rest h) ]

  -- What follows may use what is known of a value without such an answer.
  pub Succeeds-bind :
      {A B : Type 0} (P : A → Type 0) (Q : B → Type 0) (m : Prog A) (k : A → Prog B)
      → Succeeds T P m
      → ((a : A) → P a → Succeeds T Q (k a))
      → Succeeds T Q (attempt m (λ x. done (err x)) k)
  unfolding attempt
  Succeeds-bind P Q (done (ok a)) k s c = c a s
  Succeeds-bind P Q (done (err x)) k s c = tt
  Succeeds-bind P Q (panic p) k s c = tt
  Succeeds-bind P Q (ask q f) k s c =
      λ r. elim (s r) [ inl t ↦ inl t | inr rest ↦ inr (Succeeds-bind P Q (f r) k rest c) ]

  pub Succeeds-deferring :
      {A : Type 0} (Q : A → Type 0) (q : Request) (m : Prog A)
      → Succeeds T Q m
      → Succeeds T Q (deferring q m)
  unfolding deferring
  Succeeds-deferring Q q (done r) s = λ _. inr s
  Succeeds-deferring Q q (panic p) s = λ _. inr tt
  Succeeds-deferring Q q (ask u k) s =
      λ r. elim (s r) [ inl t ↦ inl t | inr rest ↦ inr (Succeeds-deferring Q q (k r) rest) ]

  pub Succeeds-if :
      {A : Type 0} (Q : A → Type 0) (b : Bool) (m n : Prog A)
      → (b ≡ true → Succeeds T Q m)
      → (b ≡ false → Succeeds T Q n)
      → Succeeds T Q (if b then m else n)
  Succeeds-if Q true m n a c = a refl
  Succeeds-if Q false m n a c = c refl

  module _ (env : Env) where
    pub Answered-later :
        {A : Type 0} (h : History) (m : Prog A)
        → Answered env T h
        → Answered env T (run_from env h m).1
    unfolding run_from
    Answered-later h (done r) o = o
    Answered-later h (panic s) o = o
    Answered-later h (ask q k) o = Answered-later (q ∷ h) (k (env h q)) (inr o)

    Succeeds-run_from :
        {A : Type 0} (Q : A → Type 0) (h : History) (m : Prog A) (a : A)
        → Succeeds T Q m
        → (run_from env h m).0 ≡ returned (ok a)
        → Q a ⊎ Answered env T (run_from env h m).1
    unfolding run_from
    Succeeds-run_from Q h (done (ok b)) a s e = let p : b ≡ a = cc in inl (subst Q p s)
    Succeeds-run_from Q h (done (err x)) a s e = cc
    Succeeds-run_from Q h (panic p) a s e = cc
    Succeeds-run_from Q h (ask q k) a s e = elim (s (env h q)) [
      | inl t ↦ inr (Answered-later (q ∷ h) (k (env h q)) (inl t))
      | inr rest ↦ Succeeds-run_from Q (q ∷ h) (k (env h q)) a rest e
    ]

    pub Succeeds-run :
        {A : Type 0} (Q : A → Type 0) (m : Prog A) (a : A)
        → Succeeds T Q m
        → (run env m).0 ≡ returned (ok a)
        → Q a ⊎ Answered env T (run env m).1
    unfolding run
    Succeeds-run Q m a s e = Succeeds-run_from Q [] m a s e
