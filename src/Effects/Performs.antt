-- ===== src/Effects/Performs.antt =====
-- Programs that do not return without a request of some kind.
use shardingsphere_on_cloud.Prelude.{
  ◌≡◌, ◌⊎◌, inl, inr, Bool, true, false, ◌∷◌, if◌then◌else◌, arith,
}
use shardingsphere_on_cloud.Go.{Error, Result, ok, err}
use shardingsphere_on_cloud.Effects.{Request, Response, Prog, done, panic, ask, attempt, deferring}
use shardingsphere_on_cloud.Effects.Run.{History, Always}
use shardingsphere_on_cloud.Effects.Avoids.{Avoids, Precedes, Precedes-once, Precedes-avoiding}

-- Each path to a value makes a request that passes the test; its answer may be an error.
abbrev pub Performs : {A : Type 0} → (Request → Bool) → Prog A → Type 0
Performs t (done (ok a)) = ⊥
Performs t (done (err e)) = Unit
Performs t (panic s) = Unit
Performs t (ask q k) = (t q ≡ true) ⊎ ((r : Result (Response q)) → Performs t (k r))

module _ (t : Request → Bool) where
  pub Performs-first :
      {A B : Type 0} (m : Prog A) (e : Error → Prog B) (k : A → Prog B)
      → Performs t m
      → ((x : Error) → Performs t (e x))
      → Performs t (attempt m e k)
  unfolding attempt
  Performs-first (done (ok a)) e k p h = absurd p
  Performs-first (done (err x)) e k p h = h x
  Performs-first (panic s) e k p h = tt
  Performs-first (ask q f) e k (inl p) h = inl p
  Performs-first (ask q f) e k (inr p) h = inr (λ r. Performs-first (f r) e k (p r) h)

  pub Performs-then :
      {A B : Type 0} (m : Prog A) (e : Error → Prog B) (k : A → Prog B)
      → ((x : Error) → Performs t (e x))
      → ((a : A) → Performs t (k a))
      → Performs t (attempt m e k)
  unfolding attempt
  Performs-then (done (ok a)) e k h c = c a
  Performs-then (done (err x)) e k h c = h x
  Performs-then (panic s) e k h c = tt
  Performs-then (ask q f) e k h c = inr (λ r. Performs-then (f r) e k h c)

  pub Performs-deferring :
      {A : Type 0} (q : Request) (m : Prog A) → Performs t m → Performs t (deferring q m)
  unfolding deferring
  Performs-deferring q (done (ok a)) p = absurd p
  Performs-deferring q (done (err e)) p = inr (λ _. tt)
  Performs-deferring q (panic s) p = inr (λ _. tt)
  Performs-deferring q (ask u k) (inl p) = inl p
  Performs-deferring q (ask u k) (inr p) = inr (λ r. Performs-deferring q (k r) (p r))

  pub Performs-else :
      {A : Type 0} (b : Bool) (m n : Prog A)
      → b ≡ false
      → Performs t n
      → Performs t (if b then m else n)
  Performs-else true m n h p = cc
  Performs-else false m n h p = p

-- `m` performs `early` and avoids `late`, and only its success leads on to `k`: whatever `k` does,
-- no `late` request comes before an `early` one.
pub Precedes-sequence :
    (early late : Request → Bool) {A B : Type 0} (h : History) (m : Prog A) (e : Error → Prog B)
    (k : A → Prog B)
    → Performs early m
    → Avoids late m
    → ((x : Error) → Avoids late (e x))
    → Precedes early late h
    → Always (λ _ g. Precedes early late g) h (attempt m e k)
unfolding attempt
Precedes-sequence early late h (done (ok a)) e k p a' c b = absurd p
Precedes-sequence early late h (done (err x)) e k p a' c b =
    Precedes-avoiding early late h (e x) (c x) b
Precedes-sequence early late h (panic s) e k p a' c b = b
Precedes-sequence early late h (ask q f) e k (inl p) a' c b = λ r.
    Precedes-once early late (q ∷ h) (attempt (f r) e k) (rw p (ground arith))
      ((λ l. cc (l, a'.0)), b)
Precedes-sequence early late h (ask q f) e k (inr p) a' c b =
    λ r. Precedes-sequence early late (q ∷ h) (f r) e k (p r) (a'.1 r) c ((λ l. cc (l, a'.0)), b)
