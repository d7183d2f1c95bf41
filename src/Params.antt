-- ===== src/Params.antt =====
-- `validate_params` of roles/msp_broker/files/broker/model.py.
pub mod Exact
use msp_fleet_public.Base.{
  String, Bool, true, false, not, Option, none, some, List, [], ◌∷◌, ◌⊎◌, inl, inr, map, any,
  contains, if◌then◌else◌,
}
use msp_fleet_public.Failure.{
  PlanFault, not_an_object, unknown_parameters, missing_parameter, invalid_parameter,
}
use msp_fleet_public.Kinds.{Kind, valid, kind_name}
use msp_fleet_public.Registry.{Operation}
use msp_fleet_public.Value.{Value, obj, Fields, entries, lookup}

abbrev pub Params : Type 0
Params = List (String × Value)

abbrev pub names {ℓ} : {V : Type ℓ} → List (String × V) → List String
names l = map (λ p. p.0) l

-- One pair of the loop over `op.params`, in front of what the later pairs give.
unfoldable pub checked : String → Kind → Option Value → PlanFault ⊎ Params → PlanFault ⊎ Params
checked name kind none rest = inl (missing_parameter name)
checked name kind (some v) (inl e) =
    if valid kind v then inl e else inl (invalid_parameter name (kind_name kind))
checked name kind (some v) (inr clean) =
    if valid kind v then inr ((name, v) ∷ clean) else inl (invalid_parameter name (kind_name kind))

unfoldable pub collect : List (String × Kind) → Params → PlanFault ⊎ Params
unfolding checked
collect [] given = inr []
collect ((name, kind) ∷ params) given = checked name kind (lookup name given) (collect params given)

unfoldable pub validate_params : Operation → Value → PlanFault ⊎ Params
unfolding collect
validate_params op (obj fs) =
    if any (λ k. not (contains k (names op.params))) (names (entries fs))
    then inl unknown_parameters
    else collect op.params (entries fs)
validate_params op _ = inl not_an_object
