-- ===== src/Aws/Username.antt =====
-- `validateusername` of pkg/reconcile/storagenode/aws/rdsinstance.go and its regular expressions,
-- as functions on the characters.
pub mod Collapse
use Prim.Native.Char.{Char, code}
use Prim.Native.String.{[], ◌∷◌, len}
use shardingsphere_on_cloud.Prelude.{
  ℕ, String, ◌≡◌, refl, Bool, true, false, ◌&&◌, ◌||◌, ltb, eqb, if◌then◌else◌,
}
use shardingsphere_on_cloud.Go.{Error, Result, ok, err, text}

-- `[a-zA-Z0-9_-]`
abbrev pub is_username_code : ℕ → Bool
is_username_code c =
    (ltb 96 c && ltb c 123)
    || (ltb 64 c && ltb c 91)
    || (ltb 47 c && ltb c 58)
    || eqb c b'_'
    || eqb c b'-'

unfoldable pub all_username : String → Bool
all_username [] = true
all_username (c ∷ s) = is_username_code (code c) && all_username s

-- `^[a-zA-Z0-9_-]+$`
unfoldable pub matches_username : String → Bool
unfolding all_username
matches_username [] = false
matches_username (c ∷ s) = all_username (c ∷ s)

-- `regexp.MustCompile("x{2,}").ReplaceAllString(s, "x")`: each run of the character becomes one.
unfoldable pub collapse : ℕ → String → String
collapse x [] = []
collapse x (c ∷ []) = c ∷ []
collapse x (c ∷ d ∷ s) =
    let rest = collapse x (d ∷ s) in if eqb (code c) x && eqb (code d) x then rest else c ∷ rest

unfoldable pub validate_username : String → Result String
unfolding matches_username collapse
validate_username str =
    if ltb 16 (len str)
    then err (text "username length should be less than 16")
    else if matches_username str
    then ok (collapse b'-' (collapse b'_' str))
    else err (text "username contains invalid characters")

validate_username-collapses : validate_username "a__b--c" ≡ ok "a_b-c"
unfolding validate_username
validate_username-collapses = refl

validate_username-invalid :
    validate_username "a b" ≡ err (text "username contains invalid characters")
unfolding validate_username
validate_username-invalid = refl
