-- ===== src/Service/Execute.antt =====
-- `_execute`, from the approval to the answer (roles/msp_broker/files/broker/service.py).
use msp_fleet_public.Base.{
  ℤ, pos, String, not, Option, none, some, ◌==◌, ◌<>◌, leb, is_zero, if◌then◌else◌,
}
use msp_fleet_public.Broker.{Broker, World, Entry}
use msp_fleet_public.Broker.Actions.{except_all, now, log, own_target, get_row, write_row}
use msp_fleet_public.Exec.{Exec, pure, ◌>>=◌, ◌>>◌}
use msp_fleet_public.Failure.{Fault, refused, adapter_error, adapter_unavailable}
use msp_fleet_public.Plan.{Target, ExecResult, failure}
use msp_fleet_public.Platform.{clamp, plan_hash}
use msp_fleet_public.Service.Views.{or_text, write_receipt}
use msp_fleet_public.Store.Rows.{Row, Status}
use msp_fleet_public.Service.Runs.{execute_operation, execute_script, execute_plan}

-- the `status` of the answer, and what `approve` returns with it
pub record Answer : Type 0 where
  pub proposal_id : String
  pub status : Status
  pub rc : Option ℤ
  pub stdout : String
  pub stderr : String
  pub summary : String

-- `str(exc)` of what `_execute` catches; the only refusal raised there is that of `_adapter`
unfoldable pub error_text : Fault → String
error_text (adapter_error e) = e
error_text (refused (adapter_unavailable name)) = "adapter is not available: " <> name
error_text (refused _) = ""
error_text _ = "internal execution error"

module _ {H : Type 0} (b : Broker H) where
  unfoldable pub run_row : Row → Target → Exec (World H) ExecResult
  run_row p target =
      if p.operation == "script.run"
      then execute_script b p
      else if p.operation == "plan.run"
      then execute_plan b p
      else execute_operation b p target

  -- `except (AdapterError, Refused)` and `except Exception`
  unfoldable pub guarded_run : Row → Target → Exec (World H) ExecResult
  unfolding error_text
  guarded_run p target = except_all (run_row p target) (λ e. failure (pos 1) (error_text e))

  abbrev ended : String → Status → String → Answer
  ended id status why = record {
    proposal_id = id;
    status = status;
    rc = none;
    stdout = "";
    stderr = "";
    summary = why;
  }

  -- `self.store.update(id, status=..., execution_finished_at=self._now(), result_summary=...)`
  unfoldable pub close_row : String → Status → String → Exec (World H) (Unit {0})
  close_row id status why = do
    t ← now b
    write_row id (λ r. record r {
      status = status;
      execution_finished_at = some t;
      result_summary = some why;
    })

  abbrev pub outcome : ExecResult → Status
  outcome result = if is_zero result.rc then Status.succeeded else Status.failed

  -- The receipt, the log and the answer of a run that is over.
  unfoldable pub file_result : String → String → Status → ExecResult → Exec (World H) Answer
  file_result id approver status result = do
    final ← get_row id
    write_receipt b final status approver (some result)
    log b (Entry.executed id status)
    pure (record {
      proposal_id = id;
      status = status;
      rc = some result.rc;
      stdout = result.stdout;
      stderr = result.stderr;
      summary = "";
    })

  -- From EXECUTING to the answer.
  unfoldable pub run_and_record : String → String → Row → Target → Exec (World H) Answer
  run_and_record id approver p target = do
    started ← now b
    write_row id (λ r. record r { status = Status.executing; execution_started_at = some started })
    result ← guarded_run p target
    finished ← now b
    let status = outcome result
    let said = clamp b.platform 1024 (or_text result.stdout result.stderr)
    write_row id (λ r. record r {
      status = status;
      execution_finished_at = some finished;
      result_rc = some result.rc;
      result_summary = some said;
      post_state = some result.post_state;
    })
    file_result id approver status result

  abbrev pub run_resolved : String → String → Row → Option Target → Exec (World H) Answer
  run_resolved id approver p none = do
    close_row id Status.failed "target no longer resolves"
    pure (ended id Status.failed "target no longer resolves")
  run_resolved id approver p (some target) = run_and_record id approver p target

  -- `_execute`
  unfoldable pub execute : String → String → Exec (World H) Answer
  unfolding close_row
  execute id approver = do
    p ← get_row id
    if not (plan_hash b.platform p.plan == p.execution_hash)
        then (close_row id Status.failed "frozen plan hash mismatch"
            >> pure (ended id Status.failed "frozen plan hash mismatch"))
        else (do
          t ← now b
          if leb p.expires_at t
              then (close_row id Status.expired "expired before execution"
                  >> pure (ended id Status.expired "proposal expired"))
              else (own_target b p.target_id >>= run_resolved id approver p))
