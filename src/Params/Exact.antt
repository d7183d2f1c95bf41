-- ===== src/Params/Exact.antt =====
-- What `validate_params` accepts and what it returns (roles/msp_broker/files/broker/model.py).
use msp_fleet_public.Base.{
  String, true, false, not, any, contains, ◌≡◌, refl, Option, none, some, List, [], ◌∷◌, ◌⊎◌, inl,
  inr, arith, ◌↔◌, subst,
}
use msp_fleet_public.Failure.{PlanFault}
use msp_fleet_public.Kinds.{Kind, valid}
use msp_fleet_public.Params.{Params, names, checked, collect, validate_params}
use msp_fleet_public.Registry.{Operation}
use msp_fleet_public.Value.{Value, obj, entries, Fields, lookup}

-- The pairs that are returned: for each declared parameter, in order, its given value, which is valid.
pub data Fits (given : Params) : List (String × Kind) → Params → Type 0 where
  nothing : Fits given [] []
  one :
      (name : String) (kind : Kind) (v : Value) (params : List (String × Kind)) (clean : Params)
      → lookup name given ≡ some v
      → valid kind v ≡ true
      → Fits given params clean
      → Fits given ((name, kind) ∷ params) ((name, v) ∷ clean)

Fits-collect :
    (given : Params) (params : List (String × Kind)) (clean : Params)
    → Fits given params clean
    → collect params given ≡ inr clean
unfolding collect checked
Fits-collect given _ _ nothing = refl
Fits-collect given _ _ (one name kind v params clean found good rest) =
    rw (found, Fits-collect given params clean rest, good) refl

Fits-checked :
    (given : Params) (name : String) (kind : Kind) (params : List (String × Kind)) (clean : Params)
    (o : Option Value) (r : PlanFault ⊎ Params)
    → lookup name given ≡ o
    → ((later : Params) → r ≡ inr later → Fits given params later)
    → checked name kind o r ≡ inr clean
    → Fits given ((name, kind) ∷ params) clean
unfolding checked
Fits-checked given name kind params clean none r e ih h = cc
Fits-checked given name kind params clean (some v) (inl x) e ih h = ground arith
Fits-checked given name kind params clean (some v) (inr later) e ih h =
    let good : valid kind v ≡ true = ground arith in
    let k : (name, v) ∷ later ≡ clean = ground arith in
    subst (Fits given ((name, kind) ∷ params)) k
      (one name kind v params later e good (ih later refl))

collect-Fits :
    (given : Params) (params : List (String × Kind)) (clean : Params)
    → collect params given ≡ inr clean
    → Fits given params clean
unfolding collect
collect-Fits given [] clean h = let e : [] ≡ clean = cc in subst (Fits given []) e nothing
collect-Fits given ((name, kind) ∷ params) clean h =
    Fits-checked given name kind params clean _ _ refl (collect-Fits given params) h

-- Parameters are accepted exactly when they are an object without undeclared keys that has, for every
-- declared parameter, a value of its kind; the result is then these values under the declared names,
-- in the order of the declaration.
pub validate_params_exact :
    (op : Operation) (fs : Fields) (clean : Params)
    → (validate_params op (obj fs) ≡ inr clean) ↔ (
        (any (λ k. not (contains k (names op.params))) (names (entries fs)) ≡ false)
        × Fits (entries fs) op.params clean)
unfolding validate_params
validate_params_exact op fs clean = (
  λ h. (ground arith, collect-Fits (entries fs) op.params clean (ground arith)),
  λ h. rw (h.0, Fits-collect (entries fs) op.params clean h.1) refl,
)
