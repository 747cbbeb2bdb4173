-- ===== src/Go/Number.antt =====
-- Signed integers, the parsing of decimal numbers (`strconv.Atoi`, `strconv.ParseInt(s, 10, 64)`)
-- and the conversion to int32, which keeps the low 32 bits.
use Prim.Native.Char.{code}
use Prim.Native.String.{[], ◌∷◌}
use shardingsphere_on_cloud.Prelude.{
  ℕ, zero, suc, ◌+◌, ◌-◌, ◌*◌, ◌/◌, ◌%◌, ◌^◌, String, ◌<>◌, ◌≡◌, refl, ◌&&◌, Option, none, some,
  ltb, eqb, if◌then◌else◌,
}

-- `negsuc n` is -(n + 1).
pub data ℤ : Type 0 where
  pos : ℕ → ℤ
  negsuc : ℕ → ℤ

abbrev pub negate : ℕ → ℤ
negate zero = pos 0
negate (suc n) = negsuc n

-- The decimal digits of `s` after a prefix of value `n`; `none` is a syntax error.
unfoldable pub digits : String → ℕ → Option ℕ
digits [] n = some n
digits (c ∷ s) n =
    let rest = digits s (n * 10 + (code c - 48)) in
    if ltb 47 (code c) && ltb (code c) 58 then rest else none

unfoldable pub unsigned : String → Option ℕ
unfolding digits
unsigned [] = none
unsigned (c ∷ s) = digits (c ∷ s) 0

abbrev in_range : ℕ → (ℕ → ℤ) → Option ℕ → Option ℤ
in_range limit sign none = none
in_range limit sign (some n) = if ltb n limit then some (sign n) else none

-- Either kind of `strconv` failure, of syntax or of range, is `none`.
unfoldable pub parse_int : String → Option ℤ
unfolding unsigned
parse_int [] = none
parse_int (c ∷ s) =
    if eqb (code c) b'-'
    then in_range (2 ^ 63 + 1) negate (unsigned s)
    else if eqb (code c) b'+'
    then in_range (2 ^ 63) pos (unsigned s)
    else in_range (2 ^ 63) pos (unsigned (c ∷ s))

-- The value of the low 32 bits `m`, read with their sign.
abbrev signed32 : ℕ → ℤ
signed32 m = if ltb m (2 ^ 31) then pos m else negsuc (2 ^ 32 - 1 - m)

unfoldable pub int32 : ℤ → ℤ
int32 (pos n) = signed32 (n % 2 ^ 32)
int32 (negsuc n) = signed32 (2 ^ 32 - 1 - n % 2 ^ 32)

-- `%d`
unfoldable pub decimal_from : ℕ → ℕ → String → String
decimal_from zero n s = s
decimal_from (suc f) n s =
    let t = Prim.Native.String.slice "0123456789" (n % 10) (n % 10 + 1) <> s in
    let rest = decimal_from f (n / 10) t in if ltb n 10 then t else rest

-- A number has at most as many digits as its value, and one digit at least.
unfoldable pub decimal : ℕ → String
unfolding decimal_from
decimal n = decimal_from (suc n) n ""

decimal-port : decimal 3307 ≡ "3307"
unfolding decimal
decimal-port = refl

parse_int-negative : parse_int "-12" ≡ some (negsuc 11)
unfolding parse_int
parse_int-negative = refl

int32-wraps : int32 (pos 4294967297) ≡ pos 1
unfolding int32
int32-wraps = refl
