-- ===== src/Service/Propose.antt =====
-- `propose` of roles/msp_broker/files/broker/service.py, and the row that the three ways to propose
-- have in common.
use msp_fleet_public.Base.{ℕ, ◌+◌, String, true, Option, none, some, if◌then◌else◌}
use msp_fleet_public.Broker.{Broker, World, Entry}
use msp_fleet_public.Broker.Actions.{
  on_host, except_adapter_error, now, new_id, expire, log, adapter, require_read, get_row,
  insert_row,
}
use msp_fleet_public.Exec.{Exec, pure, raise, lift, gets, ◌>>=◌, ◌>>◌}
use msp_fleet_public.Failure.{refused, from_adapter}
use msp_fleet_public.Params.{Params}
use msp_fleet_public.Plan.{Plan, State, Declared, Target, build_plan}
use msp_fleet_public.Platform.{plan_hash}
use msp_fleet_public.Policy.{Actor}
use msp_fleet_public.Registry.{Operation, Risk, is_high, confirmation_phrase}
use msp_fleet_public.Service.Targets.{validated_operation}
use msp_fleet_public.Service.Views.{Summary, summary}
use msp_fleet_public.Store.Rows.{Row, Status}
use msp_fleet_public.Value.{Value}

-- `_timeout_for`
abbrev pub timeout_for : Risk → ℕ
timeout_for risk = 600

module _ {H : Type 0} (b : Broker H) where
  -- The dictionary given to `insert_proposal`; it leaves the other columns NULL.
  unfoldable pub new_row :
      String
      → Actor
      → String
      → String
      → Target
      → Params
      → Risk
      → Plan
      → String
      → ℕ
      → State
      → Option Declared
      → Row
  new_row id actor adapter operation target parameters risk plan confirmation created pre_state
        declared =
      record {
        proposal_id = id;
        client_id = b.client.client_id;
        site_id = b.client.site_id;
        request_uid = actor.uid;
        adapter = adapter;
        operation = operation;
        target_id = target.id;
        target_name = target.name;
        parameters = parameters;
        risk = risk;
        status = Status.proposed;
        plan = plan;
        execution_hash = plan_hash b.platform plan;
        confirmation = confirmation;
        created_at = created;
        expires_at = created + b.policy.approval_ttl_seconds;
        approved_at = none;
        approver = none;
        execution_started_at = none;
        execution_finished_at = none;
        result_rc = none;
        result_summary = none;
        pre_state = some pre_state;
        post_state = none;
        ai_declared = declared;
      }

  -- the end of each method: insert, log, and answer with the stored row
  unfoldable pub file_proposal : Row → Entry → Exec (World H) Summary
  file_proposal row entry = do
    insert_row row
    log b entry
    stored ← get_row row.proposal_id
    pure (summary stored true)

  -- the frozen plan of one operation
  unfoldable pub operation_plan : Operation → Target → Params → State → Plan
  operation_plan op target clean pre_state =
      build_plan b.client op.adapter op.name target clean op.executor (timeout_for op.risk)
        pre_state none none none

  unfoldable pub propose : Actor → Value → Value → Value → Exec (World H) Summary
  propose actor operation ref parameters = do
    require_read actor
    expire b
    inventory ← gets (λ w. w.inventory)
    (op, target, clean) ← lift (validated_operation b inventory operation ref parameters)
    a ← adapter b op.adapter
    pre_state ←
        except_adapter_error (on_host (a.precheck op.name target clean))
          (λ e. raise (refused (from_adapter e)))
    id ← new_id b
    created ← now b
    file_proposal
        (new_row id actor op.adapter op.name target clean op.risk
          (operation_plan op target clean pre_state)
          (if is_high op.risk then confirmation_phrase op target.name else "") created pre_state
          none)
        (Entry.proposed id op.name target.id op.risk actor.uid)
