-- ===== src/Service/Runs/Quiet.antt =====
-- Running a frozen plan and the table of proposals (roles/msp_broker/files/broker/service.py).
use msp_fleet_public.Base.{ℕ, ◌+◌, String, Option, none, some, List, [], ◌∷◌, ◌⊎◌, inl, inr}
use msp_fleet_public.Adapter.{Adapter, File, regular, symlink}
use msp_fleet_public.Broker.{Broker, World}
use msp_fleet_public.Broker.Frames.{TableFrame, table_rules}
use msp_fleet_public.Exec.Rules.{Keeps}
use msp_fleet_public.Plan.{Plan, Step, Script, Target, State, ExecResult}
use msp_fleet_public.Service.Execute.{run_row, guarded_run}
use msp_fleet_public.Service.Runs.{
  after_precheck, execute_operation, run_frozen, execute_script, step_unless_failed, run_step,
  run_steps, execute_plan,
}
use msp_fleet_public.Store.Rows.{Row}

module _ {H : Type 0} {P : World H → Type 0} (b : Broker H) (frame : TableFrame P) where
  after_precheck-Keeps :
      (a : Adapter H) (p : Row) (target : Target) (stored : State) (r : ExecResult ⊎ State)
      → Keeps P (after_precheck b a p target stored r)
  after_precheck-Keeps a p target stored (inl result) = search table_rules
  after_precheck-Keeps a p target stored (inr fresh) = search table_rules

  execute_operation-Keeps : (p : Row) (target : Target) → Keeps P (execute_operation b p target)
  unfolding execute_operation
  execute_operation-Keeps p target = search (table_rules, after_precheck-Keeps)

  run_frozen-Keeps :
      (a : Adapter H) (p : Row) (s : Script) (file : Option File)
      → Keeps P (run_frozen b a p s file)
  run_frozen-Keeps a p s none = search table_rules
  run_frozen-Keeps a p s (some (symlink bytes)) = search table_rules
  run_frozen-Keeps a p s (some (regular bytes)) = search table_rules depth 8

  execute_script-Keeps : (p : Row) → Keeps P (execute_script b p)
  unfolding execute_script
  execute_script-Keeps p = search (table_rules, run_frozen-Keeps) depth 7

  step_unless_failed-Keeps :
      (a : Adapter H) (plan : Plan) (s : Step) (target : Target) (o : Option ExecResult)
      → Keeps P (step_unless_failed b a plan s target o)
  step_unless_failed-Keeps a plan s target none = search table_rules
  step_unless_failed-Keeps a plan s target (some r) = search table_rules

  run_step-Keeps :
      (plan : Plan) (index : ℕ) (s : Step) (o : Option Target) → Keeps P (run_step b plan index s o)
  unfolding run_step
  run_step-Keeps plan index s none = search table_rules
  run_step-Keeps plan index s (some target) = search (table_rules, step_unless_failed-Keeps) depth 9

  run_steps-Keeps :
      (plan : Plan) (index : ℕ) (steps : List Step) (output : List String) (last : ExecResult)
      → Keeps P (run_steps b plan index steps output last)
  unfolding run_steps
  run_steps-Keeps plan index [] output last = search table_rules
  run_steps-Keeps plan index (s ∷ steps) output last =
      search (table_rules, run_step-Keeps, run_steps-Keeps plan (index + 1) steps) depth 7

  execute_plan-Keeps : (p : Row) → Keeps P (execute_plan b p)
  unfolding execute_plan
  execute_plan-Keeps p = search (table_rules, run_steps-Keeps)

  pub run_row-Keeps : (p : Row) (target : Target) → Keeps P (run_row b p target)
  unfolding run_row
  run_row-Keeps p target =
      search (table_rules, execute_script-Keeps, execute_plan-Keeps, execute_operation-Keeps)

  pub guarded_run-Keeps : (p : Row) (target : Target) → Keeps P (guarded_run b p target)
  unfolding guarded_run
  guarded_run-Keeps p target = search (table_rules, run_row-Keeps)
