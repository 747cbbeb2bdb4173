-- ===== src/Go/Order.antt =====
-- `<` on strings, the order in which `os.ReadDir` lists the names of files. Go compares the bytes,
-- which in UTF-8 is to compare the characters.
use Prim.Native.Char.{code}
use Prim.Native.String.{[], ◌∷◌}
use text.Mathlib.TextEquality.{Char-path}
use shardingsphere_on_cloud.Prelude.{
  String, ◌≡◌, ◌≢◌, refl, Bool, true, false, ltb, eqb, Bool-cases, inl, inr, if◌then◌else◌, arith,
}

unfoldable pub before : String → String → Bool
before [] [] = false
before [] (d ∷ t) = true
before (c ∷ s) [] = false
before (c ∷ s) (d ∷ t) =
    let rest = before s t in
    if ltb (code c) (code d) then true else if eqb (code c) (code d) then rest else false

pub before_irrefl : (s : String) → before s s ≡ false
unfolding before
before_irrefl [] = refl
before_irrefl (c ∷ s) = ground (arith, before_irrefl s)

pub before_trans : (s t u : String) → before s t ≡ true → before t u ≡ true → before s u ≡ true
unfolding before
before_trans [] [] u h i = cc
before_trans [] (d ∷ t) [] h i = cc
before_trans [] (d ∷ t) (e ∷ u) h i = refl
before_trans (c ∷ s) [] u h i = cc
before_trans (c ∷ s) (d ∷ t) [] h i = cc
before_trans (c ∷ s) (d ∷ t) (e ∷ u) h i = ground (arith, before_trans s t u)

pub before-total : (s t : String) → before s t ≡ false → s ≢ t → before t s ≡ true
unfolding before
before-total [] [] h n = absurd (n refl)
before-total [] (d ∷ t) h n = cc
before-total (c ∷ s) [] h n = refl
before-total (c ∷ s) (d ∷ t) h n = elim (Bool-cases (eqb (code c) (code d))) [
  | inl q ↦
      let e : code c ≡ code d = ground (arith, q) in
      let rest : before s t ≡ false = ground (arith, h, e) in
      let after : before t s ≡ true =
        before-total s t rest (λ q. n (λ i. Char-path c d e i ∷ q i)) in
      ground (arith, after, e)
  | inr q ↦ ground (arith, h, q)
]
