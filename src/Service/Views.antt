-- ===== src/Service/Views.antt =====
-- `_summary`, `_public` and `_receipt` of roles/msp_broker/files/broker/service.py.
use msp_fleet_public.Base.{
  ℕ, ℤ, String, Bool, ◌&&◌, ◌||◌, not, Option, none, some, List, ◌==◌, if◌then◌else◌,
}
use msp_fleet_public.Broker.{Broker, World}
use msp_fleet_public.Broker.Actions.{now}
use msp_fleet_public.Exec.{Exec, pure, lift, modify, ◌>>=◌, ◌>>◌}
use msp_fleet_public.Failure.{Result, ok, err, crash}
use msp_fleet_public.Params.{Params}
use msp_fleet_public.Plan.{Plan, Script, State, Declared, ExecResult}
use msp_fleet_public.Platform.{Platform, clamp, sanitize}
use msp_fleet_public.Registry.{Risk, Operation, get_operation}
use msp_fleet_public.Store.{add_receipt}
use msp_fleet_public.Store.Rows.{Row, Status, Receipt, ScriptReceipt}

-- `a or b`, for texts and for optional values
abbrev pub or_text : String → String → String
or_text a b = if a == "" then b else a

abbrev pub or_empty : Option State → State
or_empty none = List.[]
or_empty (some s) = s

pub record Summary : Type 0 where
  pub proposal_id : String
  pub operation : String
  pub target_id : String
  pub target_name : String
  pub risk : Risk
  pub status : Status
  pub created_at : ℕ
  pub expires_at : ℕ
  pub confirmation_required : Option String

unfoldable pub summary : Row → Bool → Summary
summary p include_confirmation = record {
  proposal_id = p.proposal_id;
  operation = p.operation;
  target_id = p.target_id;
  target_name = p.target_name;
  risk = p.risk;
  status = p.status;
  created_at = p.created_at;
  expires_at = p.expires_at;
  confirmation_required =
      if include_confirmation && not (p.confirmation == "") then some p.confirmation else none;
}

pub record Public : Type 0 where
  pub proposal_id : String
  pub client_id : String
  pub site_id : String
  pub operation : String
  pub target_id : String
  pub target_name : String
  pub parameters : Params
  pub risk : Risk
  pub status : Status
  pub created_at : ℕ
  pub expires_at : ℕ
  pub approved_at : Option ℕ
  pub approver : Option String
  pub result_rc : Option ℤ
  pub result_summary : String
  pub ai_declared : Option Declared
  pub pre_state : Option State
  pub confirmation_required : Option String
  pub description : Option String
  pub effect : Option String
  pub plan : Option Plan
  pub executor : Option String

abbrev description_of : Option Operation → Option String
description_of none = none
description_of (some op) = some op.description

abbrev or_none : Option String → String
or_none none = ""
or_none (some s) = s

module _ (p : Platform) where
  unfoldable pub public_view : Row → Public
  public_view r =
      let whole = r.operation == "script.run" || r.operation == "plan.run" in
      record {
        proposal_id = r.proposal_id;
        client_id = r.client_id;
        site_id = r.site_id;
        operation = r.operation;
        target_id = r.target_id;
        target_name = r.target_name;
        parameters = r.parameters;
        risk = r.risk;
        status = r.status;
        created_at = r.created_at;
        expires_at = r.expires_at;
        approved_at = r.approved_at;
        approver = r.approver;
        result_rc = r.result_rc;
        result_summary = sanitize p (or_none r.result_summary);
        ai_declared = r.ai_declared;
        pre_state = r.pre_state;
        confirmation_required = if r.confirmation == "" then none else some r.confirmation;
        description = description_of (get_operation r.operation);
        effect = description_of (get_operation r.operation);
        plan = if whole then some r.plan else none;
        executor = if whole then none else some r.plan.executor;
      }

  abbrev transcript_of : Option ExecResult → String
  transcript_of none = ""
  transcript_of (some result) = clamp p 16384 result.transcript

  abbrev pub script_receipt : Option ExecResult → Script → ScriptReceipt
  script_receipt result s = record {
    sha256 = s.sha256;
    interpreter = s.interpreter;
    timeout_seconds = s.timeout_seconds;
    transcript = transcript_of result;
  }

  -- `proposal["plan"]["script"]`, for a script proposal only
  abbrev pub script_part : Row → Option ExecResult → Result (Option ScriptReceipt)
  script_part r result =
      if r.operation == "script.run"
      then elim r.plan.script [ none ↦ err crash | some s ↦ ok (some (script_receipt result s)) ]
      else ok none

  abbrev map_result : {A : Type 0} → (ExecResult → A) → Option ExecResult → Option A
  map_result f none = none
  map_result f (some result) = some (f result)

  unfoldable pub build_receipt :
      Row → Status → String → Option ExecResult → Option ScriptReceipt → Receipt
  build_receipt r status approver result script = record {
    proposal_id = r.proposal_id;
    client_id = r.client_id;
    site_id = r.site_id;
    adapter = r.adapter;
    operation = r.operation;
    target_id = r.target_id;
    target_name = r.target_name;
    parameters = r.parameters;
    risk = r.risk;
    request_uid = r.request_uid;
    approver = approver;
    created_at = r.created_at;
    approved_at = r.approved_at;
    execution_started_at = r.execution_started_at;
    execution_finished_at = r.execution_finished_at;
    execution_hash = r.execution_hash;
    pre_state = r.pre_state;
    post_state = r.post_state;
    status = status;
    return_code = map_result (λ x. x.rc) result;
    ai_declared = r.ai_declared;
    stdout = map_result (λ x. clamp p 16384 x.stdout) result;
    stderr = map_result (λ x. clamp p 16384 x.stderr) result;
    script = script;
  }

module _ {H : Type 0} (b : Broker H) where
  abbrev pub stamp : Option ℕ → Exec (World H) (Unit {0})
  stamp (some t) = pure tt
  stamp none = do now b; pure tt

  -- `_receipt`: the row of the receipts table; the file beside it has the same content
  unfoldable pub write_receipt :
      Row → Status → String → Option ExecResult → Exec (World H) (Unit {0})
  write_receipt r status approver result = do
    script ← lift (script_part b.platform r result)
    stamp r.execution_finished_at
    modify (λ w. record w {
      receipts =
          add_receipt r.proposal_id (build_receipt b.platform r status approver result script)
            w.receipts;
    })
