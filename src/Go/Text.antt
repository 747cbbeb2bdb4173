-- ===== src/Go/Text.antt =====
-- The functions of `strings` that the operator calls, over the characters of a text.
use Prim.Native.Char.{Char, code}
use Prim.Native.String.{[], ◌∷◌, len, slice}
use shardingsphere_on_cloud.Prelude.{
  String, ◌<>◌, ◌-◌, Bool, true, not, ◌==◌, ◌&&◌, ◌||◌, ◌≡◌, refl, ltb, eqb, if◌then◌else◌,
}
use text.Mathlib.Text.{starts_with}

-- `strings.ReplaceAll(s, old, new)` for one-character `old` and `new`.
unfoldable pub replace_all : String → Char → Char → String
replace_all [] old new = []
replace_all (c ∷ s) old new = (if eqb (code c) (code old) then new else c) ∷ replace_all s old new

-- `strings.Split(s, sep)[0]` for a one-character `sep`.
unfoldable pub split_first : String → Char → String
split_first [] sep = []
split_first (c ∷ s) sep =
    let rest = split_first s sep in if eqb (code c) (code sep) then [] else c ∷ rest

-- `strings.ToLower`, of ASCII letters; other letters have another lower case that is no ASCII
-- letter of the texts that the operator compares with.
unfoldable pub to_lower : String → String
to_lower [] = []
to_lower (c ∷ s) =
    (if ltb 64 (code c) && ltb (code c) 91
      then slice "abcdefghijklmnopqrstuvwxyz" (code c - 65) (code c - 64)
      else c ∷ [])
    <> to_lower s

-- `strings.Contains`
unfoldable pub contains : String → String → Bool
contains [] t = starts_with [] t
contains (c ∷ s) t = let rest = contains s t in starts_with (c ∷ s) t || rest

-- `strings.Trim(s, " ") == ""`
unfoldable pub is_blank : String → Bool
is_blank [] = true
is_blank (c ∷ s) = let rest = is_blank s in eqb (code c) 32 && rest

-- A path without what follows its last slash.
unfoldable pub parent : String → String
parent [] = []
parent (c ∷ s) =
    let rest = parent s in
    if not (rest == "") then c ∷ rest else if eqb (code c) 47 then c ∷ [] else []

replace_all-dash : replace_all "a-b-c" "-" "_" ≡ "a_b_c"
unfolding replace_all
replace_all-dash = refl

split_first-at : split_first "root@%" "@" ≡ "root"
unfolding split_first
split_first-at = refl

to_lower-mysql : to_lower "MySQL" ≡ "mysql"
unfolding to_lower
to_lower-mysql = refl

-- `strings.HasPrefix`
abbrev pub has_prefix : String → String → Bool
has_prefix s prefix = starts_with s prefix

-- `strings.HasSuffix`
abbrev pub has_suffix : String → String → Bool
has_suffix s suffix =
    not (ltb (len s) (len suffix)) && slice s (len s - len suffix) (len s) == suffix
