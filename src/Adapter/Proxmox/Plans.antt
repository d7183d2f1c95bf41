-- ===== src/Adapter/Proxmox/Plans.antt =====
-- Plans on the Proxmox adapter (roles/msp_broker/files/broker/proxmox.py): `_execute_plan` of
-- service.py there hands the whole plan to `execute`.
use msp_fleet_public.Base.{
  String, Bool, false, true, ◌==◌, pos, ◌≡◌, refl, sym, subst, some, List, ◌∷◌, ◌<>◌, eq_iff,
}
use msp_fleet_public.Adapter.Remote.{Runner}
use msp_fleet_public.Adapter.Proxmox.{precheck, execute, argv_for, ext, proxmox}
use msp_fleet_public.Broker.{Broker, World}
use msp_fleet_public.Broker.Actions.{adapter, own_target, on_host, except_adapter_error}
use msp_fleet_public.Exec.{◌>>=◌}
use msp_fleet_public.Failure.{Result, ok, err, adapter_error}
use msp_fleet_public.Plan.{Plan, Step, Target, State, Declared, ExecResult, failure, build_plan}
use msp_fleet_public.Platform.{Platform, decimal}
use msp_fleet_public.Registry.{Operation, get_operation}
use msp_fleet_public.Service.ProposePlan.{steps_plan}
use msp_fleet_public.Service.Runs.{execute_plan, run_steps, run_step}
use msp_fleet_public.Store.{inventory_get}
use msp_fleet_public.Store.Rows.{Row}
use msp_fleet_public.Value.{lookup}

-- How a plan ends whose first step is on the Proxmox adapter, by what the precheck of that step gives.
abbrev pub ended_at_first : Step → Result State → Result ExecResult
ended_at_first s (ok state) = err (adapter_error ("operation is not implemented: " <> s.operation))
ended_at_first s (err (adapter_error e)) =
    ok (failure (pos 1) ("step 1" <> " precheck failed: " <> e))
ended_at_first s (err e) = err e

-- The round of the loop for that step: it is never run.
abbrev round_of : Step → Result State → Result (ExecResult × Bool)
round_of s (ok state) = err (adapter_error ("operation is not implemented: " <> s.operation))
round_of s (err (adapter_error e)) =
    ok (failure (pos 1) ("step 1" <> " precheck failed: " <> e), false)
round_of s (err e) = err e

module _ {H : Type 0} (b : Broker H) (p : Platform) (runner : Runner H)
    (observed : H → String) where
  -- The row's plan is as `propose_plan` freezes it; its first step is on the Proxmox adapter, which the
  -- broker has, is of a registered operation of that adapter, and its target is the client's.
  pub record StartsOnProxmox (row : Row) (s : Step) (target : Target) (w : World H) : Type 0 where
    pub first : Target
    pub later : List Step
    pub declared : Declared
    pub planned : row.plan ≡ steps_plan b first (s ∷ later) declared
    pub on_proxmox : s.adapter ≡ "proxmox"
    pub registered : lookup "proxmox" b.adapters ≡ some (proxmox p runner observed)
    pub op : Operation
    pub known : get_operation s.operation ≡ some op
    pub named : op.name ≡ s.operation
    pub handled : op.adapter ≡ s.adapter
    pub there : inventory_get w.inventory s.target_id ≡ some target
    pub own : target.client_id ≡ b.client.client_id

  module _ (s : Step) (target : Target) (w : World H) (plan : Plan) (op : Operation)
      (registered : lookup s.adapter b.adapters ≡ some (proxmox p runner observed))
      (known : get_operation s.operation ≡ some op) (named : (op.name == s.operation) ≡ true)
      (handled : (op.adapter == s.adapter) ≡ true) (whole : plan.executor ≡ "run_plan") where
    stepped :
        (r : Result State) (h : H)
        → precheck p runner observed s.operation target s.parameters w.host ≡ (r, h)
        → run_step b plan 1 s (some target) w ≡ (round_of s r, record w { host = h })
    unfolding run_step adapter on_host except_adapter_error execute argv_for ext decimal ◌>>=◌
    stepped (ok state) h e = rw (registered, known, named, handled, e, whole) refl
    stepped (err (adapter_error x)) h e = rw (registered, known, named, handled, e) refl
    stepped (err x) h e = rw (registered, known, named, handled, e) refl

  module _ (row : Row) (s : Step) (target : Target) (w : World H)
      (start : StartsOnProxmox row s target w) where
    round :
        (r : Result State) (h : H)
        → precheck p runner observed s.operation target s.parameters w.host ≡ (r, h)
        → run_step b (steps_plan b start.first (s ∷ start.later) start.declared) 1 s (some target) w
          ≡ (round_of s r, record w { host = h })
    unfolding steps_plan build_plan
    round r h e =
        stepped s target w (steps_plan b start.first (s ∷ start.later) start.declared) start.op
          (subst (λ a. lookup a b.adapters ≡ some (proxmox p runner observed))
            (sym start.on_proxmox) start.registered)
          start.known ((eq_iff start.op.name s.operation).1 start.named)
          ((eq_iff start.op.adapter s.adapter).1 start.handled) refl r h e

    owned : (target.client_id == b.client.client_id) ≡ true
    owned = (eq_iff target.client_id b.client.client_id).1 start.own

    -- No plan that `propose_plan` freezes runs a step if its first step is on the Proxmox adapter, which
    -- the broker has, of a registered operation of that adapter and on a target of the client that is in
    -- the inventory: if the precheck of that step succeeds, executing the plan raises that the operation
    -- is not implemented; if it fails with an error of the adapter, the answer is exit code 1 with its
    -- text and no output, and any other error is raised. The host is left as that precheck leaves it.
    pub execute_plan-ended_at_first :
        (r : Result State) (h : H)
        → precheck p runner observed s.operation target s.parameters w.host ≡ (r, h)
        → execute_plan b row w ≡ (ended_at_first s r, record w { host = h })
    unfolding execute_plan run_steps own_target steps_plan build_plan ◌>>=◌
    execute_plan-ended_at_first (ok state) h e =
        rw (start.planned, start.there, owned, round (ok state) h e) refl
    execute_plan-ended_at_first (err (adapter_error x)) h e =
        rw (start.planned, start.there, owned, round (err (adapter_error x)) h e) refl
    execute_plan-ended_at_first (err x) h e =
        rw (start.planned, start.there, owned, round (err x) h e) refl
