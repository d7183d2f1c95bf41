-- ===== src/Service/Targets.antt =====
-- `_allowed`, `resolve_target` and `_validated_operation` of
-- roles/msp_broker/files/broker/service.py. They read the inventory and change nothing, so they are
-- functions into results.
pub mod Named
pub mod Exact
use msp_fleet_public.Base.{
  String, Bool, true, false, not, ◌||◌, Option, none, some, List, [], ◌∷◌, ◌⊎◌, inl, inr, ◌==◌,
  contains, if◌then◌else◌,
}
use msp_fleet_public.Broker.{Broker}
use msp_fleet_public.Failure.{
  Fault, refused, Refusal, PlanFault, Result, ok, err, ◌>>=◌, ◌>>◌, crash, adapter_disabled,
  unsupported_operation, forbidden_operation, unknown_operation, target_required, foreign_target,
  ambiguous_target, unknown_target, wrong_adapter, wrong_kind, bad_parameters,
}
use msp_fleet_public.Params.{Params, validate_params}
use msp_fleet_public.Plan.{Target}
use msp_fleet_public.Policy.{AdapterPolicy}
use msp_fleet_public.Registry.{Operation, get_operation_value, is_forbidden}
use msp_fleet_public.Store.{inventory_get, inventory_by_name}
use msp_fleet_public.Value.{Value, str, lookup}

-- `if test: raise Refused(...)`
abbrev pub unless : Bool → Refusal → Result (Unit {0})
unless true why = err (refused why)
unless false why = ok tt

abbrev pub permits : String → String → Option AdapterPolicy → Result (Unit {0})
permits adapter operation none = err (refused (adapter_disabled adapter))
permits adapter operation (some cfg) =
    if not cfg.enabled
    then err (refused (adapter_disabled adapter))
    else if not (contains operation cfg.operations)
    then err (refused (unsupported_operation operation))
    else ok tt

module _ {H : Type 0} (b : Broker H) where
  -- `_allowed`
  unfoldable pub allowed : String → String → Result (Unit {0})
  allowed adapter operation = permits adapter operation (lookup adapter b.policy.adapters)

  -- The only match by name, and the test for another client's target.
  abbrev pub chosen : String → List Target → Result Target
  chosen ref [] = err (refused (unknown_target ref))
  chosen ref (t ∷ []) =
      if t.client_id == b.client.client_id then ok t else err (refused foreign_target)
  chosen ref (t ∷ u ∷ ts) = err (refused (ambiguous_target ref))

  abbrev pub by_id_or_name : List Target → String → Option Target → Result Target
  by_id_or_name inventory ref (some t) =
      if t.client_id == b.client.client_id then ok t else err (refused foreign_target)
  by_id_or_name inventory ref none = chosen ref (inventory_by_name inventory ref)

  unfoldable pub resolve_text : List Target → String → Result Target
  resolve_text inventory ref =
      if ref == ""
      then err (refused target_required)
      else by_id_or_name inventory ref (inventory_get inventory ref)

  unfoldable pub resolve_target : List Target → Value → Result Target
  unfolding resolve_text
  resolve_target inventory (str ref) = resolve_text inventory ref
  resolve_target inventory _ = err (refused target_required)

  abbrev pub registered : Option Operation → Result Operation
  registered none = err (refused unknown_operation)
  registered (some op) = ok op

  abbrev pub accepted : PlanFault ⊎ Params → Result Params
  accepted (inl e) = err (refused (bad_parameters e))
  accepted (inr clean) = ok clean

  unfoldable pub validated_operation :
      List Target → Value → Value → Value → Result (Operation × Target × Params)
  unfolding resolve_target allowed
  validated_operation inventory operation ref parameters = do
    found ← get_operation_value operation
    op ← registered found
    unless (is_forbidden op.risk) (forbidden_operation op.name)
    allowed op.adapter op.name
    target ← resolve_target inventory ref
    unless (not (target.adapter == op.adapter)) (wrong_adapter op.adapter)
    unless (not (contains target.kind op.target_kinds)) (wrong_kind op.name target.kind)
    clean ← accepted (validate_params op parameters)
    ok (op, target, clean)
