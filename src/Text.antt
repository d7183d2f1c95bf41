-- ===== src/Text.antt =====
-- The string methods that the broker calls: `strip`, `splitlines` and `in`.
use Prim.Native.Nat.{ℕ}
use Prim.Native.Char.{Char, code}
use text.Mathlib.Text.{find?}
use msp_fleet_public.Base.{
  String, Bool, false, not, ◌&&◌, ◌||◌, Option, none, some, List, [], ◌∷◌, leb, nat_eq, is_none,
  if◌then◌else◌,
}

-- `str.isspace` of the character with a given code
abbrev pub is_space_code : ℕ → Bool
is_space_code c =
    leb 9 c && leb c 13
    || leb 28 c && leb c 32
    || nat_eq c 133
    || nat_eq c 160
    || nat_eq c 5760
    || leb 8192 c && leb c 8202
    || nat_eq c 8232
    || nat_eq c 8233
    || nat_eq c 8239
    || nat_eq c 8287
    || nat_eq c 12288

abbrev pub is_space : Char → Bool
is_space ch = is_space_code (code ch)

unfoldable pub lstrip : String → String
lstrip String.[] = String.[]
lstrip (String.◌∷◌ c s) = let rest = lstrip s in if is_space c then rest else String.◌∷◌ c s

-- A character in front of a text whose end is stripped already.
abbrev keep : Char → String → String
keep c String.[] = if is_space c then String.[] else String.◌∷◌ c String.[]
keep c (String.◌∷◌ d s) = String.◌∷◌ c (String.◌∷◌ d s)

unfoldable pub rstrip : String → String
rstrip String.[] = String.[]
rstrip (String.◌∷◌ c s) = keep c (rstrip s)

-- `text.strip()`
unfoldable pub strip : String → String
unfolding lstrip rstrip
strip s = lstrip (rstrip s)

-- the characters at which `splitlines` breaks
abbrev is_break : Char → Bool
is_break ch =
    let c = code ch in
    leb 10 c && leb c 13 || leb 28 c && leb c 30 || nat_eq c 133 || nat_eq c 8232 || nat_eq c 8233

abbrev starts_lf : String → Bool
starts_lf String.[] = false
starts_lf (String.◌∷◌ c s) = nat_eq (code c) 10

abbrev push : Char → List String → List String
push c [] = String.◌∷◌ c String.[] ∷ []
push c (l ∷ ls) = String.◌∷◌ c l ∷ ls

-- `text.splitlines()`; a CR and LF break once
unfoldable pub splitlines : String → List String
splitlines String.[] = []
splitlines (String.◌∷◌ c s) =
    let rest = splitlines s in
    if nat_eq (code c) 13 && starts_lf s
    then rest
    else if is_break c
    then String.[] ∷ rest
    else push c rest

-- `part in text`
unfoldable pub has_part : String → String → Bool
has_part part text = not (is_none (find? text part))

-- `text.partition(sep)` and `text.split(sep, 1)` without the separator, if there is one: the parts at
-- the first character with the given code
unfoldable pub partition_at : ℕ → String → Option (String × String)
partition_at sep String.[] = none
partition_at sep (String.◌∷◌ c s) =
    if nat_eq (code c) sep then some (String.[], s) else elim (partition_at sep s) [
      | none ↦ none
      | some (left, right) ↦ some (String.◌∷◌ c left, right)
    ]
