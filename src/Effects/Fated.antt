-- ===== src/Effects/Fated.antt =====
-- Programs that end in a given panic once a request was answered without an error.
use shardingsphere_on_cloud.Prelude.{
  String, ◌≡◌, ◌⊎◌, inl, inr, refl, Bool, true, false, ◌&&◌, ◌||◌, [], ◌∷◌, if◌then◌else◌, arith,
}
use shardingsphere_on_cloud.Go.{Error, Result, ok, err}
use shardingsphere_on_cloud.Effects.{
  Request, Response, Prog, done, panic, ask, attempt, deferring, call, on_error,
}
use shardingsphere_on_cloud.Effects.Run.{Env, History, Outcome, returned, panicked, run, run_from}

abbrev is_ok : {A : Type 0} → Result A → Bool
is_ok (ok a) = true
is_ok (err x) = false

-- A request that passes the test was answered without an error.
abbrev pub achieved : Env → (Request → Bool) → History → Bool
achieved env t [] = false
achieved env t (q ∷ h) = let before = achieved env t h in (t q && is_ok (env h q)) || before

-- Each path ends in the panic.
abbrev pub Doomed : {A : Type 0} → String → Prog A → Type 0
Doomed s (done r) = ⊥
Doomed s (panic p) = p ≡ s
Doomed s (ask q k) = (r : Result (Response q)) → Doomed s (k r)

-- Each path on which a request that passes the test is answered without an error ends in the panic,
-- as do all others that panic, and the values of those that return satisfy `Q`.
abbrev pub Fated : {A : Type 0} → (Request → Bool) → String → (A → Type 0) → Prog A → Type 0
Fated t s Q (done (ok a)) = Q a
Fated t s Q (done (err x)) = Unit
Fated t s Q (panic p) = p ≡ s
Fated t s Q (ask q k) =
    ((t q ≡ false) × ((r : Result (Response q)) → Fated t s Q (k r)))
    ⊎ (((a : Response q) → Doomed s (k (ok a))) × ((x : Error) → Fated t s Q (k (err x))))

-- The run ends in an error before such an answer, or in the panic.
abbrev pub EndsIn : {A : Type 0} → Env → (Request → Bool) → String → Outcome A × History → Type 0
EndsIn env t s (o, h) =
    ((x : Error) × (o ≡ returned (err x)) × (achieved env t h ≡ false)) ⊎ (o ≡ panicked s)

module _ (t : Request → Bool) (s : String) where
  pub Doomed-attempt :
      {A B : Type 0} (m : Prog A) (e : Error → Prog B) (k : A → Prog B)
      → Doomed s m
      → Doomed s (attempt m e k)
  unfolding attempt
  Doomed-attempt (done r) e k d = absurd d
  Doomed-attempt (panic p) e k d = d
  Doomed-attempt (ask q f) e k d = λ r. Doomed-attempt (f r) e k (d r)

  Doomed-deferring : {A : Type 0} (q : Request) (m : Prog A) → Doomed s m → Doomed s (deferring q m)
  unfolding deferring
  Doomed-deferring q (done r) d = absurd d
  Doomed-deferring q (panic p) d = λ _. d
  Doomed-deferring q (ask p k) d = λ r. Doomed-deferring q (k r) (d r)

  pub Fated-attempt :
      {A B : Type 0} (P : A → Type 0) (Q : B → Type 0) (m : Prog A) (e : Error → Prog B)
      (k : A → Prog B)
      → Fated t s P m
      → ((x : Error) → Fated t s Q (e x))
      → ((a : A) → P a → Fated t s Q (k a))
      → Fated t s Q (attempt m e k)
  unfolding attempt
  Fated-attempt P Q (done (ok a)) e k m h c = c a m
  Fated-attempt P Q (done (err x)) e k m h c = h x
  Fated-attempt P Q (panic p) e k m h c = m
  Fated-attempt P Q (ask q f) e k (inl (n, m)) h c =
      inl (n, λ r. Fated-attempt P Q (f r) e k (m r) h c)
  Fated-attempt P Q (ask q f) e k (inr (d, m)) h c =
      inr
        (λ a. Doomed-attempt (f (ok a)) e k (d a), λ x. Fated-attempt P Q (f (err x)) e k (m x) h c)

  pub Fated-deferring :
      {A : Type 0} (Q : A → Type 0) (q : Request) (m : Prog A)
      → t q ≡ false
      → Fated t s Q m
      → Fated t s Q (deferring q m)
  unfolding deferring
  Fated-deferring Q q (done (ok a)) n m = inl (n, λ _. m)
  Fated-deferring Q q (done (err x)) n m = inl (n, λ _. tt)
  Fated-deferring Q q (panic p) n m = inl (n, λ _. m)
  Fated-deferring Q q (ask p k) n (inl (u, m)) = inl (u, λ r. Fated-deferring Q q (k r) n (m r))
  Fated-deferring Q q (ask p k) n (inr (d, m)) =
      inr (λ a. Doomed-deferring q (k (ok a)) (d a), λ x. Fated-deferring Q q (k (err x)) n (m x))

  pub Fated-else :
      {A : Type 0} (Q : A → Type 0) (b : Bool) (m n : Prog A)
      → b ≡ false
      → Fated t s Q n
      → Fated t s Q (if b then m else n)
  Fated-else Q true m n f a = cc
  Fated-else Q false m n f a = a

  pub Fated-call :
      (q : Request) (f : Error → Error) → t q ≡ false → Fated t s (λ _. Unit) (on_error f (call q))
  unfolding attempt
  Fated-call q f n = inl (n, λ r. returned_error r)
    where
      returned_error :
          (r : Result (Response q))
          → Fated t s (λ _. Unit) (attempt (done r) (λ x. done (err (f x))) (λ a. done (ok a)))
      returned_error (ok a) = tt
      returned_error (err x) = tt

  pub Fated-if :
      {A : Type 0} (Q : A → Type 0) (b : Bool) (m n : Prog A)
      → Fated t s Q m
      → Fated t s Q n
      → Fated t s Q (if b then m else n)
  Fated-if Q true m n a c = a
  Fated-if Q false m n a c = c

  module _ (env : Env) where
    Doomed-run_from :
        {A : Type 0} (h : History) (m : Prog A) → Doomed s m → (run_from env h m).0 ≡ panicked s
    unfolding run_from
    Doomed-run_from h (done r) d = absurd d
    Doomed-run_from h (panic p) d = rw d refl
    Doomed-run_from h (ask q k) d = Doomed-run_from (q ∷ h) (k (env h q)) (d (env h q))

    -- What follows an answer after which the run is fated.
    answered :
        {A : Type 0} (q : Request) (h : History) (k : Result (Response q) → Prog A)
        (r : Result (Response q))
        → env h q ≡ r
        → achieved env t h ≡ false
        → ((a : Response q) → Doomed s (k (ok a)))
        → ((x : Error)
            → achieved env t (q ∷ h) ≡ false
            → EndsIn env t s (run_from env (q ∷ h) (k (err x))))
        → EndsIn env t s (run_from env (q ∷ h) (k r))
    answered q h k (ok a) e n d c = inr (Doomed-run_from (q ∷ h) (k (ok a)) (d a))
    answered q h k (err x) e n d c = c x (rw e (rw n (ground arith)))

    Fated-run_from :
        {A : Type 0} (h : History) (m : Prog A)
        → Fated t s (λ _. ⊥) m
        → achieved env t h ≡ false
        → EndsIn env t s (run_from env h m)
    unfolding run_from
    Fated-run_from h (done (ok a)) f n = absurd f
    Fated-run_from h (done (err x)) f n = inl (x, refl, n)
    Fated-run_from h (panic p) f n = inr (rw f refl)
    Fated-run_from h (ask q k) (inl (u, f)) n =
        Fated-run_from (q ∷ h) (k (env h q)) (f (env h q)) (rw u n)
    Fated-run_from h (ask q k) (inr (d, f)) n =
        answered q h k (env h q) refl n d (λ x. Fated-run_from (q ∷ h) (k (err x)) (f x))

    pub Fated-run : {A : Type 0} (m : Prog A) → Fated t s (λ _. ⊥) m → EndsIn env t s (run env m)
    unfolding run
    Fated-run m f = Fated-run_from [] m f refl
