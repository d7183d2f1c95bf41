-- ===== src/Service/Sound/Proposing.antt =====
-- The three ways to propose and the frozen columns of the stored proposals
-- (roles/msp_broker/files/broker/service.py).
use msp_fleet_public.Base.{ℕ, String, false, ◌≡◌, refl, Option, List}
use msp_fleet_public.Adapter.{Adapter}
use msp_fleet_public.Broker.{Broker, Entry}
use msp_fleet_public.Broker.Frames.{TableFrame-Frame, Keeps-files, Keeps-require_read, table_rules}
use msp_fleet_public.Exec.Keeps.{Keeps-gets, Keeps-lift, Keeps-refuse_if}
use msp_fleet_public.Exec.Rules.{Keeps, Triple-bind, Triple-lift}
use msp_fleet_public.Params.{Params}
use msp_fleet_public.Plan.{Plan, State, Declared, Target, Step, build_plan}
use msp_fleet_public.Policy.{Actor}
use msp_fleet_public.Registry.{Risk, is_forbidden, low}
use msp_fleet_public.Service.Propose.{new_row, file_proposal, operation_plan, propose}
use msp_fleet_public.Service.ProposePlan.{steps_plan, stage_plan, propose_plan}
use msp_fleet_public.Service.ProposeScript.{freeze, script_plan, stage_script, propose_script}
use msp_fleet_public.Service.Sound.{IsSound, Sound, Sound-frame, expire-Sound, insert_row-Sound}
use msp_fleet_public.Service.Steps.Covered.{PlanCovered, AllCovered, freeze_steps-IsRisk}
use msp_fleet_public.Service.Targets.Exact.{validated_operation-IsValidated, forbidden_iff}
use msp_fleet_public.Store.Rows.{Row}
use msp_fleet_public.Value.{Value}

none_covered : Unit {0}
none_covered = tt

module _ {H : Type 0} (b : Broker H) where
  new_row-IsSound :
      (id : String) (actor : Actor) (adapter operation : String) (target : Target) (ps : Params)
      (risk : Risk) (plan : Plan) (confirmation : String) (created : ℕ) (pre : State)
      (declared : Option Declared)
      → plan.target_id ≡ target.id
      → plan.operation ≡ operation
      → is_forbidden risk ≡ false
      → PlanCovered risk plan.steps
      → IsSound b (
          new_row b id actor adapter operation target ps risk plan confirmation created pre
            declared)
  unfolding new_row
  new_row-IsSound id actor adapter operation target ps risk plan confirmation created pre declared t
        o p c =
      record {
        client = refl;
        site = refl;
        hash = refl;
        target = t;
        operation = o;
        life = refl;
        permitted = p;
        covered = c;
      }

  file_proposal-Sound : (r : Row) (e : Entry) → IsSound b r → Keeps (Sound b) (file_proposal b r e)
  unfolding file_proposal
  file_proposal-Sound r e s = search (table_rules, insert_row-Sound b, Sound-frame b)

  ruleset sound_rules = (table_rules, Sound-frame, expire-Sound, file_proposal-Sound)

  pub propose-Sound :
      (actor : Actor) (operation ref parameters : Value)
      → Keeps (Sound b) (propose b actor operation ref parameters)
  unfolding propose operation_plan build_plan
  propose-Sound actor operation ref parameters = Triple-bind _ _ (Keeps-require_read actor) λ _.
      Triple-bind _ _ (expire-Sound b) λ _. Triple-bind _ _ (Keeps-gets _) λ inventory.
        Triple-lift _ _ (λ w s. s)
          λ x e.
            let v =
              validated_operation-IsValidated b inventory operation ref parameters x.0 x.1 x.2 e in
            let permitted = (forbidden_iff x.0.risk).1 v.permitted in
            search (sound_rules, new_row-IsSound, permitted, refl, none_covered) depth 14

  freeze-Sound : (path : String) (bytes : List ℕ) → Keeps (Sound b) (freeze b path bytes)
  unfolding freeze
  freeze-Sound path bytes = Keeps-files _ (TableFrame-Frame (Sound-frame b))

  stage_script-Sound :
      (actor : Actor) (target : Target) (a : Adapter H) (interpreter : String) (timeout : ℕ)
      (purpose effects : String) (bytes : List ℕ)
      → Keeps (Sound b) (stage_script b actor target a interpreter timeout purpose effects bytes)
  unfolding stage_script script_plan build_plan is_forbidden
  stage_script-Sound actor target a interpreter timeout purpose effects bytes =
      search (sound_rules, freeze-Sound, new_row-IsSound, refl, none_covered) depth 12

  stage_plan-Sound :
      (actor : Actor) (target : Target) (steps : List Step) (risk : Risk) (purpose : String)
      → is_forbidden risk ≡ false
      → AllCovered risk steps
      → Keeps (Sound b) (stage_plan b actor target steps risk purpose)
  unfolding stage_plan steps_plan build_plan
  stage_plan-Sound actor target steps risk purpose p c =
      search (sound_rules, new_row-IsSound, refl) depth 12

  pub propose_script-Sound :
      (actor : Actor) (ref interpreter : Value) (path : String) (purpose : Value) (effects : String)
      (timeout : Value)
      → Keeps (Sound b) (propose_script b actor ref interpreter path purpose effects timeout)
  unfolding propose_script
  propose_script-Sound actor ref interpreter path purpose effects timeout =
      search (sound_rules, stage_script-Sound) depth 20

  pub propose_plan-Sound :
      (actor : Actor) (steps purpose : Value) → Keeps (Sound b) (propose_plan b actor steps purpose)
  unfolding propose_plan is_forbidden
  propose_plan-Sound actor steps purpose = Triple-bind _ _ (Keeps-require_read actor) λ _.
      Triple-bind _ _ (expire-Sound b) λ _. Triple-bind _ _ (Keeps-refuse_if _ _) λ _.
        Triple-bind _ _ (Keeps-lift _) λ given. Triple-bind _ _ (Keeps-lift _) λ stated.
          Triple-bind _ _ (Keeps-gets _) λ inventory.
            Triple-lift _ _ (λ w s. s)
              λ x e.
                let risk = freeze_steps-IsRisk b inventory given low x.1 x.0 e in
                let permitted = risk.permitted refl in
                let covered = risk.covered in
                search (sound_rules, stage_plan-Sound, permitted, covered) depth 8
