-- ===== src/Value.antt =====
-- JSON values, as `json.loads` returns them (roles/msp_broker/files/broker/server.py). A number with
-- a fraction or an exponent is kept as its text: the broker only asks whether a value is an integer.
pub mod Arguments
use msp_fleet_public.Base.{
  true, false, not, is_zero, ℤ, String, Bool, Option, none, some, List, [], ◌∷◌, ◌==◌,
  if◌then◌else◌,
}

mutual
  pub data Value : Type 0 where
    null : Value
    bool : Bool → Value
    num : ℤ → Value
    real : String → Value
    str : String → Value
    obj : Fields → Value
    arr : Items → Value

  pub data Fields : Type 0 where
    end : Fields
    field : String → Value → Fields → Fields

  pub data Items : Type 0 where
    nil : Items
    cons : Value → Items → Items

-- The elements of an array.
abbrev pub items : Items → List Value
items nil = []
items (cons v vs) = v ∷ items vs

-- The keys and values of an object.
abbrev pub entries : Fields → List (String × Value)
entries end = []
entries (field k v fs) = (k, v) ∷ entries fs

-- `d.get(k)` on a Python dict, as an association list without duplicate keys
abbrev pub lookup {ℓ} : {V : Type ℓ} → String → List (String × V) → Option V
lookup k [] = none
lookup k ((j, v) ∷ d) = if j == k then some v else lookup k d

-- `d[key] = value` on such a dict
unfoldable pub assign {ℓ} : {V : Type ℓ} → String → V → List (String × V) → List (String × V)
assign key v [] = (key, v) ∷ []
assign key v ((k, u) ∷ d) = if k == key then (k, v) ∷ d else (k, u) ∷ assign key v d

-- `d.get(k, default)` on an object
abbrev pub get_or : String → Value → Fields → Value
get_or k v end = v
get_or k v (field j w fs) = if j == k then w else get_or k v fs

-- `bool(v)`; a number with a fraction is taken for one that is not 0
unfoldable pub truthy : Value → Bool
truthy null = false
truthy (bool b) = b
truthy (num n) = not (is_zero n)
truthy (real x) = true
truthy (str s) = not (s == "")
truthy (arr nil) = false
truthy (arr (cons v vs)) = true
truthy (obj end) = false
truthy (obj (field k v fs)) = true
