-- ===== src/Effects/Orderly.antt =====
-- Programs that make requests of several kinds in a given order in every run.
use shardingsphere_on_cloud.Prelude.{◌≡◌, refl, ◌&&◌, ◌||◌, Bool, true, false, List, [], ◌∷◌, arith}
use shardingsphere_on_cloud.Go.{Error, Result, ok, err}
use shardingsphere_on_cloud.Effects.{Request, Response, Prog, done, panic, ask, attempt}
use shardingsphere_on_cloud.Effects.Run.{History, Always}

-- No path ends in an error or a panic, and each value satisfies `Q`.
abbrev pub Yields : {A : Type 0} → (A → Type 0) → Prog A → Type 0
Yields Q (done (ok a)) = Q a
Yields Q (done (err x)) = ⊥
Yields Q (panic s) = ⊥
Yields Q (ask q k) = (r : Result (Response q)) → Yields Q (k r)

-- The program begins with a request that passes the test.
abbrev pub Asks : {A : Type 0} → (Request → Bool) → Prog A → Type 0
Asks t (done r) = ⊥
Asks t (panic s) = ⊥
Asks t (ask q k) = t q ≡ true

-- Requests that pass the tests were made in their order, the first test being that of the latest.
abbrev pub in_order : List (Request → Bool) → History → Bool
in_order [] h = true
in_order (t ∷ ts) [] = false
in_order (t ∷ ts) (q ∷ h) =
    let earlier = in_order ts h in let later = in_order (t ∷ ts) h in (t q && earlier) || later

pub in_order-now :
    (t : Request → Bool) (ts : List (Request → Bool)) (q : Request) (h : History)
    → t q ≡ true
    → in_order ts h ≡ true
    → in_order (t ∷ ts) (q ∷ h) ≡ true
in_order-now t ts q h p o = rw p (rw o refl)

pub in_order-later :
    (ts : List (Request → Bool)) (q : Request) (h : History)
    → in_order ts h ≡ true
    → in_order ts (q ∷ h) ≡ true
in_order-later [] q h o = refl
in_order-later (t ∷ ts) q h o = ground arith

-- Every run goes through requests that pass the tests, in their order.
abbrev pub Orderly : {A : Type 0} → List (Request → Bool) → History → Prog A → Type 0
Orderly ts h m = Always (λ _ g. in_order ts g ≡ true) h m

module _ (all : List (Request → Bool)) where
  -- What is made so far stays so, and what follows may use what is known of the value.
  pub Orderly-then :
      {A B : Type 0} (ts : List (Request → Bool)) (Q : A → Type 0) (h : History) (m : Prog A)
      (e : Error → Prog B) (k : A → Prog B)
      → Yields Q m
      → in_order ts h ≡ true
      → ((a : A) (g : History) → Q a → in_order ts g ≡ true → Orderly all g (k a))
      → Orderly all h (attempt m e k)
  unfolding attempt
  Orderly-then ts Q h (done (ok a)) e k y o c = c a h y o
  Orderly-then ts Q h (done (err x)) e k y o c = absurd y
  Orderly-then ts Q h (panic s) e k y o c = absurd y
  Orderly-then ts Q h (ask q f) e k y o c =
      λ r. Orderly-then ts Q (q ∷ h) (f r) e k (y r) (in_order-later ts q h o) c

  -- A program that begins with a request of one more test.
  pub Orderly-ask :
      {A B : Type 0} (t : Request → Bool) (ts : List (Request → Bool)) (Q : A → Type 0)
      (h : History) (m : Prog A) (e : Error → Prog B) (k : A → Prog B)
      → Asks t m
      → Yields Q m
      → in_order ts h ≡ true
      → ((a : A) (g : History) → Q a → in_order (t ∷ ts) g ≡ true → Orderly all g (k a))
      → Orderly all h (attempt m e k)
  unfolding attempt
  Orderly-ask t ts Q h (done r) e k s y o c = absurd s
  Orderly-ask t ts Q h (panic x) e k s y o c = absurd s
  Orderly-ask t ts Q h (ask q f) e k s y o c =
      λ r. Orderly-then (t ∷ ts) Q (q ∷ h) (f r) e k (y r) (in_order-now t ts q h s o) c

  pub Orderly-end :
      {A : Type 0} (h : History) (m : Prog A) → in_order all h ≡ true → Orderly all h m
  Orderly-end h (done r) o = o
  Orderly-end h (panic s) o = o
  Orderly-end h (ask q k) o = λ r. Orderly-end (q ∷ h) (k r) (in_order-later all q h o)
