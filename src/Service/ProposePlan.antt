-- ===== src/Service/ProposePlan.antt =====
-- `propose_plan` of roles/msp_broker/files/broker/service.py.
use msp_fleet_public.Base.{String, not, none, some, List, [], ◌<>◌, length, if◌then◌else◌}
use msp_fleet_public.Broker.{Broker, World, Entry}
use msp_fleet_public.Broker.Actions.{now, new_id, expire, require_read}
use msp_fleet_public.Exec.{Exec, lift, gets, refuse_if, ◌>>=◌, ◌>>◌}
use msp_fleet_public.Failure.{plans_disabled}
use msp_fleet_public.Plan.{Plan, Step, Declared, Target, build_plan}
use msp_fleet_public.Policy.{Actor}
use msp_fleet_public.Registry.{Risk, low, is_high}
use msp_fleet_public.Service.Propose.{new_row, file_proposal}
use msp_fleet_public.Service.Steps.{steps_of, plan_purpose_of, freeze_steps, first_target}
use msp_fleet_public.Service.Views.{Summary}
use msp_fleet_public.Text.{strip}
use msp_fleet_public.Value.{Value}

module _ {H : Type 0} (b : Broker H) where
  -- the frozen plan of several steps
  unfoldable pub steps_plan : Target → List Step → Declared → Plan
  steps_plan target steps declared =
      build_plan b.client target.adapter "plan.run" target [] "run_plan" 600 [] (some steps) none
        (some declared)

  -- From the new identifier to the answer.
  unfoldable pub stage_plan : Actor → Target → List Step → Risk → String → Exec (World H) Summary
  stage_plan actor target steps risk purpose = do
    id ← new_id b
    created ← now b
    let declared : Declared = record { purpose = strip purpose; effects = none }
    file_proposal b
        (new_row b id actor target.adapter "plan.run" target [] risk
          (steps_plan target steps declared)
          (if is_high risk then "APPROVE PLAN " <> target.name else "") created [] (some declared))
        (Entry.proposed_plan id (length steps) risk actor.uid)

  unfoldable pub propose_plan : Actor → Value → Value → Exec (World H) Summary
  propose_plan actor steps purpose = do
    require_read actor
    expire b
    refuse_if (not b.policy.plans.enabled) plans_disabled
    given ← lift (steps_of b.policy.plans.max_steps steps)
    stated ← lift (plan_purpose_of purpose)
    inventory ← gets (λ w. w.inventory)
    (frozen, risk) ← lift (freeze_steps b inventory given low)
    target ← lift (first_target b inventory frozen)
    stage_plan actor target frozen risk stated
