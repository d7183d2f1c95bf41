-- ===== src/Publish/Escaped.antt =====
-- The escaping of names in patterns (`e` of bin/publish-data.py).
use Prim.Native.Char.{Char, code}
use msp_fleet_public.Base.{
  ℕ, String, Bool, any, true, false, ◌≡◌, refl, Option, none, some, arith, nat_eq, Bool-cases, inl,
  inr, if◌then◌else◌,
}
use msp_fleet_public.Kinds.{codes}
use msp_fleet_public.Publish.{is_meta, backslash, e}

abbrev on_rest : Char → Option String → Option String
on_rest c none = none
on_rest c (some s) = some (String.◌∷◌ c s)

-- The characters that mean something in a pattern.
abbrev special : ℕ → Bool
special c = any (nat_eq c) (codes ".^$*+?()[]{}|\\")

special-is_meta : (c : ℕ) → special c ≡ is_meta c
special-is_meta c = ground arith

-- The text that a pattern matches if it is made of plain characters and escaped metacharacters only,
-- read with a backslash before it or not: a plain metacharacter is no such pattern, and neither is
-- an escaped letter.
unfoldable pub literal : Bool → String → Option String
literal escaped String.[] = if escaped then none else some String.[]
literal escaped (String.◌∷◌ c s) =
    let plain = literal false s in
    let behind = literal true s in
    if escaped
    then (if special (code c) then on_rest c plain else none)
    else if nat_eq (code c) b'\\'
    then behind
    else if special (code c)
    then none
    else on_rest c plain

literal_meta :
    (c : Char) (s : String)
    → is_meta (code c) ≡ true
    → literal false (String.◌∷◌ backslash (String.◌∷◌ c s)) ≡ on_rest c (literal false s)
unfolding literal
literal_meta c s h = rw (special-is_meta (code c), h) refl

literal_plain :
    (c : Char) (s : String)
    → is_meta (code c) ≡ false
    → literal false (String.◌∷◌ c s) ≡ on_rest c (literal false s)
unfolding literal
literal_plain c s h = let k = special-is_meta (code c) in ground arith

-- The escaped form of a name is a pattern that matches this very name, and no metacharacter of the
-- name is left bare.
pub literal-e : (name : String) → literal false (e name) ≡ some name
unfolding literal e
literal-e String.[] = refl
literal-e (String.◌∷◌ c name) = elim (Bool-cases (is_meta (code c))) [
  | inl h ↦ rw (h, literal_meta c (e name) h, literal-e name) refl
  | inr h ↦ rw (h, literal_plain c (e name) h, literal-e name) refl
]
