-- ===== src/Effects/Releasing.antt =====
-- Programs that release what they lock: after each request that locks, a later one unlocks.
use shardingsphere_on_cloud.Prelude.{◌≡◌, ◌⊎◌, inl, inr, Bool, true, false, [], ◌∷◌, if◌then◌else◌}
use shardingsphere_on_cloud.Go.{Error, Result, ok, err}
use shardingsphere_on_cloud.Effects.{Request, Response, Prog, done, panic, ask, attempt}
use shardingsphere_on_cloud.Effects.Run.{
  Env, History, Outcome, returned, panicked, run, Always, Always-run,
}
use shardingsphere_on_cloud.Effects.Avoids.{Avoids, Avoids-attempt, Avoids-bind}

-- No path ends in an error.
abbrev pub Calm : {A : Type 0} → Prog A → Type 0
Calm (done (ok a)) = Unit
Calm (done (err x)) = ⊥
Calm (panic s) = Unit
Calm (ask q k) = (r : Result (Response q)) → Calm (k r)

pub Calm-attempt :
    {A B : Type 0} (m : Prog A) (e : Error → Prog B) (k : A → Prog B)
    → ((x : Error) → Calm (e x))
    → ((a : A) → Calm (k a))
    → Calm (attempt m e k)
unfolding attempt
Calm-attempt (done (ok a)) e k h c = c a
Calm-attempt (done (err x)) e k h c = h x
Calm-attempt (panic s) e k h c = tt
Calm-attempt (ask q f) e k h c = λ r. Calm-attempt (f r) e k h c

pub Calm-bind :
    {A B : Type 0} (m : Prog A) (k : A → Prog B)
    → Calm m
    → ((a : A) → Calm (k a))
    → Calm (attempt m (λ x. done (err x)) k)
unfolding attempt
Calm-bind (done (ok a)) k m c = c a
Calm-bind (done (err x)) k m c = absurd m
Calm-bind (panic s) k m c = tt
Calm-bind (ask q f) k m c = λ r. Calm-bind (f r) k (m r) c

module _ (lock unlock : Request → Bool) where
  -- In the history, whose latest request stands first, each lock was followed by an unlock.
  abbrev pub IsReleased : History → Type 0
  IsReleased [] = Unit
  IsReleased (q ∷ h) = (unlock q ≡ true) ⊎ ((lock q ≡ false) × IsReleased h)

  -- A run that returns has released what it locked.
  abbrev pub Released : {A : Type 0} → Outcome A → History → Type 0
  Released (returned r) g = IsReleased g
  Released (panicked s) g = Unit

  -- From a released history the program leads to released ones.
  abbrev pub Frees : {A : Type 0} → Prog A → Type 0
  Frees m = (h : History) → IsReleased h → Always Released h m

  pub Frees-avoiding : {A : Type 0} (m : Prog A) → Avoids lock m → Frees m
  Frees-avoiding (done r) a h i = i
  Frees-avoiding (panic s) a h i = tt
  Frees-avoiding (ask q k) a h i = λ r. Frees-avoiding (k r) (a.1 r) (q ∷ h) (inr (a.0, i))

  pub Frees-bind :
      {A B : Type 0} (m : Prog A) (k : A → Prog B)
      → Avoids lock m
      → ((a : A) → Frees (k a))
      → Frees (attempt m (λ x. done (err x)) k)
  unfolding attempt
  Frees-bind (done (ok a)) k m c h i = c a h i
  Frees-bind (done (err x)) k m c h i = i
  Frees-bind (panic s) k m c h i = tt
  Frees-bind (ask q f) k m c h i = λ r. Frees-bind (f r) k (m.1 r) c (q ∷ h) (inr (m.0, i))

  -- The program unlocks first, and locks nothing after that.
  abbrev pub Unlocks : {A : Type 0} → Prog A → Type 0
  Unlocks (done r) = ⊥
  Unlocks (panic s) = Unit
  Unlocks (ask q k) = (unlock q ≡ true) × ((r : Result (Response q)) → Avoids lock (k r))

  Unlocks-Always : {A : Type 0} (m : Prog A) (h : History) → Unlocks m → Always Released h m
  Unlocks-Always (done r) h u = absurd u
  Unlocks-Always (panic s) h u = tt
  Unlocks-Always (ask q k) h u = λ r. Frees-avoiding (k r) (u.1 r) (q ∷ h) (inl u.0)

  pub Unlocks-attempt :
      {A B : Type 0} (m : Prog A) (e : Error → Prog B) (k : A → Prog B)
      → Unlocks m
      → ((x : Error) → Avoids lock (e x))
      → ((a : A) → Avoids lock (k a))
      → Unlocks (attempt m e k)
  unfolding attempt
  Unlocks-attempt (done r) e k u h c = absurd u
  Unlocks-attempt (panic s) e k u h c = tt
  Unlocks-attempt (ask q f) e k u h c = (u.0, λ r. Avoids-attempt lock (f r) e k (u.1 r) h c)

  -- A path of the program unlocks, or it ends in a value that owes the unlocking to what follows;
  -- none ends in an error before.
  abbrev pub Owing : {A : Type 0} → (A → Type 0) → Prog A → Type 0
  Owing Owes (done (ok a)) = Owes a
  Owing Owes (done (err x)) = ⊥
  Owing Owes (panic s) = Unit
  Owing Owes (ask q k) =
      ((unlock q ≡ true) × ((r : Result (Response q)) → Avoids lock (k r)))
      ⊎ ((r : Result (Response q)) → Owing Owes (k r))

  pub Owing-Unlocks : {A : Type 0} (Owes : A → Type 0) (m : Prog A) → Unlocks m → Owing Owes m
  Owing-Unlocks Owes (done r) u = absurd u
  Owing-Unlocks Owes (panic s) u = tt
  Owing-Unlocks Owes (ask q k) u = inl u

  pub Owing-attempt :
      {A B : Type 0} (Owes : B → Type 0) (m : Prog A) (e : Error → Prog B) (k : A → Prog B)
      → ((x : Error) → Owing Owes (e x))
      → ((a : A) → Owing Owes (k a))
      → Owing Owes (attempt m e k)
  unfolding attempt
  Owing-attempt Owes (done (ok a)) e k h c = c a
  Owing-attempt Owes (done (err x)) e k h c = h x
  Owing-attempt Owes (panic s) e k h c = tt
  Owing-attempt Owes (ask q f) e k h c = inr (λ r. Owing-attempt Owes (f r) e k h c)

  pub Owing-bind :
      {A B : Type 0} (Owes : B → Type 0) (m : Prog A) (k : A → Prog B)
      → Calm m
      → ((a : A) → Owing Owes (k a))
      → Owing Owes (attempt m (λ x. done (err x)) k)
  unfolding attempt
  Owing-bind Owes (done (ok a)) k m c = c a
  Owing-bind Owes (done (err x)) k m c = absurd m
  Owing-bind Owes (panic s) k m c = tt
  Owing-bind Owes (ask q f) k m c = inr (λ r. Owing-bind Owes (f r) k (m r) c)

  pub Owing-if :
      {A : Type 0} (Owes : A → Type 0) (b : Bool) (m n : Prog A)
      → Owing Owes m
      → Owing Owes n
      → Owing Owes (if b then m else n)
  Owing-if Owes true m n a c = a
  Owing-if Owes false m n a c = c

  -- What follows unlocks where it is owed, and never locks.
  pub Owing-then :
      {A B : Type 0} (Owes : A → Type 0) (m : Prog A) (k : A → Prog B)
      → Owing Owes m
      → ((a : A) → Owes a → Unlocks (k a))
      → ((a : A) → Avoids lock (k a))
      → (h : History) → Always Released h (attempt m (λ x. done (err x)) k)
  unfolding attempt
  Owing-then Owes (done (ok a)) k m u c h = Unlocks-Always (k a) h (u a m)
  Owing-then Owes (done (err x)) k m u c h = absurd m
  Owing-then Owes (panic s) k m u c h = tt
  Owing-then Owes (ask q f) k (inl m) u c h = λ r.
      Frees-avoiding (attempt (f r) (λ x. done (err x)) k) (Avoids-bind lock (f r) k (m.1 r) c)
        (q ∷ h) (inl m.0)
  Owing-then Owes (ask q f) k (inr m) u c h = λ r. Owing-then Owes (f r) k (m r) u c (q ∷ h)

  pub Frees-run :
      {A : Type 0} (env : Env) (m : Prog A) → Frees m → Released (run env m).0 (run env m).1
  Frees-run env m f = Always-run Released env m (f [] tt)
