-- ===== src/Aws/Username/Collapse.antt =====
-- The user names that `validateusername` returns.
use Prim.Native.Char.{code}
use Prim.Native.String.len
use Prim.Native.String.{[], ◌∷◌, len}
use shardingsphere_on_cloud.Prelude.{
  ℕ, ◌≤◌, String, ◌≡◌, refl, subst, Bool, true, false, ◌&&◌, ◌||◌, eqb, arith,
}
use shardingsphere_on_cloud.Go.{ok}
use shardingsphere_on_cloud.Aws.Username.{
  all_username, matches_username, collapse, validate_username,
}

unfoldable pub starts : ℕ → String → Bool
starts x [] = false
starts x (c ∷ s) = eqb (code c) x

-- Two characters `x` stand side by side.
unfoldable pub is_doubled : ℕ → String → Bool
unfolding starts
is_doubled x [] = false
is_doubled x (c ∷ s) = (eqb (code c) x && starts x s) || is_doubled x s

starts-collapse : (x y : ℕ) (s : String) → starts y (collapse x s) ≡ starts y s
unfolding starts collapse
starts-collapse x y [] = refl
starts-collapse x y (c ∷ []) = refl
starts-collapse x y (c ∷ d ∷ s) = ground (arith, starts-collapse x y (d ∷ s))

not_doubled-collapse : (x : ℕ) (s : String) → is_doubled x (collapse x s) ≡ false
unfolding is_doubled collapse
not_doubled-collapse x [] = refl
not_doubled-collapse x (c ∷ []) = ground arith
not_doubled-collapse x (c ∷ d ∷ s) =
    ground (arith, not_doubled-collapse x (d ∷ s), starts-collapse x x (d ∷ s))

not_doubled-collapse_other :
    (x y : ℕ) (s : String) → is_doubled y s ≡ false → is_doubled y (collapse x s) ≡ false
unfolding is_doubled collapse
not_doubled-collapse_other x y [] h = refl
not_doubled-collapse_other x y (c ∷ []) h = ground arith
not_doubled-collapse_other x y (c ∷ d ∷ s) h =
    ground (arith, not_doubled-collapse_other x y (d ∷ s), starts-collapse x y (d ∷ s))

all_username-collapse :
    (x : ℕ) (s : String) → all_username s ≡ true → all_username (collapse x s) ≡ true
unfolding all_username collapse
all_username-collapse x [] h = refl
all_username-collapse x (c ∷ []) h = ground arith
all_username-collapse x (c ∷ d ∷ s) h = ground (arith, all_username-collapse x (d ∷ s))

len-collapse : (x : ℕ) (s : String) → len (collapse x s) ≤ len s
unfolding collapse
len-collapse x [] = omega arith
len-collapse x (c ∷ []) = omega arith
len-collapse x (c ∷ d ∷ s) =
    ground (arith, len-collapse x (d ∷ s), len.cons c (d ∷ s), len.cons c (collapse x (d ∷ s)))

-- A name of at most 16 letters, digits, `_` and `-`, with neither of the two doubled.
abbrev pub IsUsername : String → Type 0
IsUsername s =
    (len s ≤ 16)
    × (all_username s ≡ true)
    × (is_doubled b'_' s ≡ false)
    × (is_doubled b'-' s ≡ false)

matches-all : (s : String) → matches_username s ≡ true → all_username s ≡ true
unfolding matches_username
matches-all [] h = cc
matches-all (c ∷ s) h = h

-- `validate_username` returns user names only.
pub validate_username-IsUsername : (s t : String) → validate_username s ≡ ok t → IsUsername t
unfolding validate_username
validate_username-IsUsername s t h =
    let (e, short, valid) = validated s t h in
    let first = collapse b'_' s in
    subst IsUsername e (
      omega (arith, short, len-collapse b'_' s, len-collapse b'-' first),
      all_username-collapse b'-' first (all_username-collapse b'_' s (matches-all s valid)),
      not_doubled-collapse_other b'-' b'_' first (not_doubled-collapse b'_' s),
      not_doubled-collapse b'-' first,
    )
  where
    validated :
        (s t : String)
        → validate_username s ≡ ok t
        → (collapse b'-' (collapse b'_' s) ≡ t) × (len s ≤ 16) × (matches_username s ≡ true)
    validated s t h = ground arith
