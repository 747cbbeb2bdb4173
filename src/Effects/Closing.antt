-- ===== src/Effects/Closing.antt =====
-- Programs that end with a closing request once they made a request of some kind.
use shardingsphere_on_cloud.Prelude.{
  ◌≡◌, refl, Bool, true, false, [], ◌∷◌, All, arith, if◌then◌else◌,
}
use shardingsphere_on_cloud.Go.{Error, ok, err}
use shardingsphere_on_cloud.Effects.{Request, Prog, done, panic, ask, attempt, deferring}
use shardingsphere_on_cloud.Effects.Run.{History, Always}
use shardingsphere_on_cloud.Effects.Avoids.{Fails, occurs, Avoids}

-- The latest request passes the test.
abbrev pub latest_is : (Request → Bool) → History → Bool
latest_is t [] = false
latest_is t (q ∷ h) = t q

-- If a request passes `t`, the latest passes `c`.
abbrev pub IsClosed : (t c : Request → Bool) → History → Type 0
IsClosed t c h = occurs t h ≡ true → latest_is c h ≡ true

module _ (t c : Request → Bool) where
  -- Every run from `h` ends closed.
  abbrev pub Closes : {A : Type 0} → History → Prog A → Type 0
  Closes h m = Always (λ _ g. IsClosed t c g) h m

  IsClosed-Fails : (h : History) → All (Fails t) h → IsClosed t c h
  IsClosed-Fails [] f o = cc
  IsClosed-Fails (q ∷ h) f o = IsClosed-Fails-none (q ∷ h) f o
    where
      occurs_none : (g : History) → All (Fails t) g → occurs t g ≡ false
      occurs_none [] f = refl
      occurs_none (q ∷ g) f = ground (arith, occurs_none g f.1)

      IsClosed-Fails-none : (g : History) → All (Fails t) g → IsClosed t c g
      IsClosed-Fails-none g f o = cc (o, occurs_none g f)

  pub Closes-avoiding :
      {A : Type 0} (h : History) (m : Prog A) → All (Fails t) h → Avoids t m → Closes h m
  Closes-avoiding h (done r) f a = IsClosed-Fails h f
  Closes-avoiding h (panic s) f a = IsClosed-Fails h f
  Closes-avoiding h (ask q k) f a = λ r. Closes-avoiding (q ∷ h) (k r) (a.0, f) (a.1 r)

  pub Closes-attempt :
      {A B : Type 0} (h : History) (m : Prog A) (e : Error → Prog B) (k : A → Prog B)
      → All (Fails t) h
      → Avoids t m
      → ((x : Error) → Avoids t (e x))
      → ((a : A) (g : History) → All (Fails t) g → Closes g (k a))
      → Closes h (attempt m e k)
  unfolding attempt
  Closes-attempt h (done (ok a)) e k f v x c = c a h f
  Closes-attempt h (done (err s)) e k f v x c = Closes-avoiding h (e s) f (x s)
  Closes-attempt h (panic s) e k f v x c = IsClosed-Fails h f
  Closes-attempt h (ask q n) e k f v x c =
      λ r. Closes-attempt (q ∷ h) (n r) e k (v.0, f) (v.1 r) x c

  pub Closes-deferring :
      {A : Type 0} (h : History) (q : Request) (m : Prog A) → c q ≡ true → Closes h (deferring q m)
  unfolding deferring
  Closes-deferring h q (done r) e = λ _ _. e
  Closes-deferring h q (panic s) e = λ _ _. e
  Closes-deferring h q (ask p k) e = λ r. Closes-deferring (p ∷ h) q (k r) e

  pub Closes-if :
      {A : Type 0} (b : Bool) (h : History) (m n : Prog A)
      → Closes h m
      → Closes h n
      → Closes h (if b then m else n)
  Closes-if true h m n a d = a
  Closes-if false h m n a d = d
