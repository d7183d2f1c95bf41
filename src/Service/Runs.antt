-- ===== src/Service/Runs.antt =====
-- The three ways to run a frozen plan: `_execute_operation`, `_execute_script` and `_execute_plan`
-- (roles/msp_broker/files/broker/service.py).
pub mod Quiet
pub mod Guards
use msp_fleet_public.Base.{
  ℕ, ◌+◌, ℤ, pos, negsuc, String, Bool, true, false, not, ◌&&◌, ◌||◌, Option, none, some, List, [],
  ◌∷◌, ◌++◌, ◌⊎◌, inl, inr, ◌==◌, ◌<>◌, leb, is_zero, is_none, if◌then◌else◌,
}
use msp_fleet_public.Adapter.{Adapter, File, regular, symlink}
use msp_fleet_public.Broker.{Broker, World, Entry}
use msp_fleet_public.Broker.Actions.{
  on_host, except_adapter_error, except_all, now, log, adapter, own_target, present, get_row,
  write_row,
}
use msp_fleet_public.Exec.{Exec, pure, raise, lift, gets, continue, ◌>>=◌, ◌>>◌}
use msp_fleet_public.Failure.{
  Fault, Result, ok, err, crash, refused, adapter_error, adapter_unavailable,
}
use msp_fleet_public.Plan.{Plan, Step, Script, Target, State, ExecResult, failure}
use msp_fleet_public.Platform.{clamp, decimal, int_text, plan_hash}
use msp_fleet_public.Registry.{Operation, get_operation}
use msp_fleet_public.Service.Views.{or_text, or_empty, write_receipt}
use msp_fleet_public.Store.Rows.{Row, Status}

-- `"\n".join(output) + ("\n" if output else "")`
abbrev pub join_lines : List String → String
join_lines [] = ""
join_lines (l ∷ ls) = l <> "\n" <> join_lines ls

abbrev step_label : ℕ → String
step_label index = "step " <> decimal index

-- a step that was run
abbrev step_line : ℕ → String → ℤ → String
step_line index operation rc = step_label index <> " " <> operation <> " rc=" <> int_text rc

module _ {H : Type 0} (b : Broker H) where
  -- `try: fresh = adapter.precheck(...)` / `except AdapterError as exc: return failed(exc)`
  abbrev observe :
      Adapter H
      → String
      → Target
      → Row
      → (String → ExecResult)
      → Exec (World H) (ExecResult ⊎ State)
  observe a operation target p failed =
      except_adapter_error
        (on_host (a.precheck operation target p.parameters) >>= λ s. pure (inr s))
        (λ e. pure (inl (failed e)))

  abbrev drifted : Adapter H → State → State → Bool
  drifted a stored fresh = elim a.preconditions_hold [
    | none ↦ false
    | some hold ↦ not (hold stored fresh)
  ]

  abbrev after_precheck :
      Adapter H → Row → Target → State → ExecResult ⊎ State → Exec (World H) ExecResult
  after_precheck a p target stored (inl result) = pure result
  after_precheck a p target stored (inr fresh) =
      if drifted a stored fresh
      then pure (record (failure (pos 1) "target state changed; restage and reapprove") {
        pre_state = stored;
        post_state = fresh;
      })
      else (do
        result ← on_host (a.execute p.operation target p.parameters p.plan)
        pure (record result { pre_state = stored }))

  unfoldable pub execute_operation : Row → Target → Exec (World H) ExecResult
  execute_operation p target = do
    a ← adapter b p.adapter
    observed ← observe a p.operation target p (λ e. failure (pos 1) ("precheck failed: " <> e))
    after_precheck a p target (or_empty p.pre_state) observed

  abbrev run_frozen : Adapter H → Row → Script → Option File → Exec (World H) ExecResult
  run_frozen a p s (some (symlink bytes)) = pure (failure (pos 1) "frozen script is a symlink")
  run_frozen a p s none = raise crash
  run_frozen a p s (some (regular bytes)) =
      if not (b.platform.sha256 bytes == s.sha256)
      then pure (failure (pos 1) "frozen script hash mismatch")
      else (do
        run_script ← lift (present a.run_script crash)
        files ← gets (λ w. w.files)
        result ← on_host (run_script s.interpreter s.path s.timeout_seconds files)
        pure (record result { pre_state = or_empty p.pre_state }))

  unfoldable pub execute_script : Row → Exec (World H) ExecResult
  execute_script p = do
    a ← adapter b p.adapter
    s ← lift (present p.plan.script crash)
    file ← gets (λ w. w.files s.path)
    run_frozen a p s file

  -- `op is None or op.name != step["operation"] or op.adapter != step["adapter"]`, the other way
  abbrev matches_step : Step → Option Operation → Bool
  matches_step s none = false
  matches_step s (some op) = op.name == s.operation && op.adapter == s.adapter

  -- the precheck of a step, whose result is dropped; its error ends the plan
  abbrev precheck_step : Adapter H → ℕ → Step → Target → Exec (World H) (Option ExecResult)
  precheck_step a index s target =
      if is_none a.preconditions_hold
      then pure none
      else except_adapter_error
          (on_host (a.precheck s.operation target s.parameters) >>= λ fresh. pure none)
          (λ e. pure (some (failure (pos 1) (step_label index <> " precheck failed: " <> e))))

  abbrev step_unless_failed :
      Adapter H → Plan → Step → Target → Option ExecResult → Exec (World H) (ExecResult × Bool)
  step_unless_failed a plan s target (some result) = pure (result, false)
  step_unless_failed a plan s target none = do
    result ← on_host (a.execute s.operation target s.parameters plan)
    pure (result, true)

  -- One round of the loop: the new `last`, and whether the step was run.
  unfoldable pub run_step : Plan → ℕ → Step → Option Target → Exec (World H) (ExecResult × Bool)
  run_step plan index s none =
      pure (failure (pos 1) (step_label index <> ": target no longer resolves"), false)
  run_step plan index s (some target) = do
    a ← adapter b s.adapter
    if matches_step s (get_operation s.operation)
        then (precheck_step a index s target >>= step_unless_failed a plan s target)
        else pure (failure (pos 1) (step_label index <> ": invalid operation"), false)

  abbrev added : ℕ → Step → List String → ExecResult × Bool → List String
  added index s output (last, ran) =
      if ran then output ++ step_line index s.operation last.rc ∷ [] else output

  -- The loop: a step that was not run, or whose exit code is not 0, ends it.
  unfoldable pub run_steps :
      Plan → ℕ → List Step → List String → ExecResult → Exec (World H) (List String × ExecResult)
  unfolding run_step
  run_steps plan index [] output last = pure (output, last)
  run_steps plan index (s ∷ steps) output last = own_target b s.target_id >>= λ target.
      run_step plan index s target >>= λ round.
      if round.1 && is_zero round.0.rc
      then run_steps plan (index + 1) steps (added index s output round) round.0
      else pure (added index s output round, round.0)

  unfoldable pub execute_plan : Row → Exec (World H) ExecResult
  unfolding run_steps
  execute_plan p = do
    steps ← lift (present p.plan.steps crash)
    (output, last) ← run_steps p.plan 1 steps [] (failure (pos 0) "")
    pure (record {
      rc = last.rc;
      stdout = join_lines output;
      stderr = last.stderr;
      pre_state = [];
      post_state = last.post_state;
      transcript = "";
    })
