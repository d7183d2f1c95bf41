-- ===== src/Service/Steps.antt =====
-- The steps of a plan, checked and frozen by `propose_plan` of
-- roles/msp_broker/files/broker/service.py: results that depend on the inventory alone.
pub mod Covered
use msp_fleet_public.Base.{
  ℕ, String, Bool, true, false, ◌||◌, Option, none, some, List, [], ◌∷◌, ltb, length, if◌then◌else◌,
}
use msp_fleet_public.Broker.{Broker}
use msp_fleet_public.Failure.{
  Result, ok, err, ◌>>=◌, refused, bad_step_count, purpose_required, step_not_object, crash,
}
use msp_fleet_public.Kinds.{codes}
use msp_fleet_public.Params.{Params}
use msp_fleet_public.Plan.{Step, Target}
use msp_fleet_public.Registry.{Operation, Risk, risk_order}
use msp_fleet_public.Service.ProposeScript.{purpose_of}
use msp_fleet_public.Service.Targets.{validated_operation, resolve_text}
use msp_fleet_public.Value.{Value, null, arr, obj, Fields, end, items, get_or}

-- `if RISK_ORDER[op.risk] > RISK_ORDER[risk]: risk = op.risk`
unfoldable pub raise_risk : Risk → Risk → Risk
unfolding risk_order
raise_risk risk new = if ltb (risk_order risk) (risk_order new) then new else risk

-- The steps, if they are a list of 1 to `max_steps`.
abbrev pub steps_of : ℕ → Value → Result (List Value)
steps_of max (arr vs) =
    if ltb (length (items vs)) 1 || ltb max (length (items vs))
    then err (refused bad_step_count)
    else ok (items vs)
steps_of max _ = err (refused bad_step_count)

-- `step.get("operation")` and the like, of a step that must be an object
abbrev pub object_of : Value → Result Fields
object_of (obj fs) = ok fs
object_of _ = err (refused step_not_object)

-- the plan's purpose, not blank and of at most 512 characters
abbrev pub plan_purpose_of : Value → Result String
plan_purpose_of purpose = do
  s ← purpose_of purpose
  if ltb 512 (length (codes s)) then err (refused purpose_required) else ok s

module _ {H : Type 0} (b : Broker H) where
  abbrev pub step_of : Operation → Target → Params → Step
  step_of op target clean = record {
    adapter = op.adapter;
    operation = op.name;
    target_id = target.id;
    target_name = target.name;
    target_external_id = target.external_id;
    parameters = clean;
    executor = op.executor;
  }

  -- The loop over the steps, from the risk so far: the frozen steps, and the risk at the end.
  unfoldable pub freeze_steps : List Target → List Value → Risk → Result (List Step × Risk)
  unfolding raise_risk
  freeze_steps inventory [] risk = ok ([], risk)
  freeze_steps inventory (v ∷ vs) risk = do
    fs ← object_of v
    (op, target, clean) ←
        validated_operation b inventory (get_or "operation" null fs) (get_or "target" null fs)
          (get_or "parameters" (obj end) fs)
    (steps, final) ← freeze_steps inventory vs (raise_risk risk op.risk)
    ok (step_of op target clean ∷ steps, final)

  abbrev pub first_target : List Target → List Step → Result Target
  first_target inventory [] = err crash
  first_target inventory (s ∷ steps) = resolve_text b inventory s.target_id
