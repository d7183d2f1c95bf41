-- ===== src/Service/Life/Running.antt =====
-- `_execute` and the order of states (roles/msp_broker/files/broker/service.py).
use msp_fleet_public.Base.{String, true, ◌≡◌, refl, Option, none, some, arith}
use msp_fleet_public.Broker.{Broker}
use msp_fleet_public.Broker.Actions.{now}
use msp_fleet_public.Broker.Frames.{TableFrame-Frame, Keeps-now, Keeps-get_row, Keeps-own_target}
use msp_fleet_public.Exec.Rules.{
  Triple, Triple-bind, Triple-pure, Triple-if, Triple-weaken, Keeps-to,
}
use msp_fleet_public.Plan.{Target, ExecResult}
use msp_fleet_public.Service.Execute.{outcome, close_row, run_and_record, run_resolved, execute}
use msp_fleet_public.Service.Runs.Quiet.{guarded_run-Keeps}
use msp_fleet_public.Service.Life.{
  Since, At, Done, Done-frame, Done-Since, At-Done, At-frame, At-Since, write_row-At,
}
use msp_fleet_public.Service.Receipts.{file_result-Keeps}
use msp_fleet_public.Store.{Table}
use msp_fleet_public.Store.Moves.{frozen, leads, is_final}
use msp_fleet_public.Store.Rows.{Row, Status}

module _ {H : Type 0} (b : Broker H) where
  outcome-is_final : (result : ExecResult) → is_final (outcome b result) ≡ true
  unfolding is_final
  outcome-is_final result = ground arith

  outcome-leads : (result : ExecResult) → leads Status.executing (outcome b result) ≡ true
  unfolding leads is_final
  outcome-leads result = ground arith

module _ {H : Type 0} {t : Table} {id : String} (b : Broker H) where
  pub now-At : {st : Status} → Triple (At t id st) (now b) (λ _. At t id st) (Since t)
  now-At = Keeps-to _ (Keeps-now b (TableFrame-Frame At-frame)) At-Since

  pub close_row-At :
      {st : Status} (st' : Status) (why : String)
      → leads st st' ≡ true
      → Triple (At t id st) (close_row b id st' why) (λ _. At t id st') (Since t)
  unfolding close_row frozen
  close_row-At st' why forward =
      Triple-bind _ _ now-At (λ n. write_row-At st' _ forward (λ r. refl) (λ r. refl) (λ r. refl))

  run_and_record-At :
      (approver : String) (p : Row) (target : Target)
      → Triple
          (At t id Status.approved)
          (run_and_record b id approver p target)
          (λ _. Done t id)
          (Since t)
  unfolding run_and_record frozen leads
  run_and_record-At approver p target = Triple-bind _ _ now-At λ started.
      Triple-bind _ _ (write_row-At Status.executing _ refl (λ r. refl) (λ r. refl) (λ r. refl))
        λ _. Triple-bind _ _ (Keeps-to _ (guarded_run-Keeps b At-frame p target) At-Since) λ result.
          Triple-bind _ _ now-At λ finished.
            Triple-bind _ _
              (write_row-At (outcome b result) _ (outcome-leads b result) (λ r. refl) (λ r. refl)
                (λ r. refl))
              λ _. Triple-weaken _ (At-Done (outcome-is_final b result)) (
                Keeps-to _
                  (file_result-Keeps b (TableFrame-Frame Done-frame) id approver (outcome b result)
                    result)
                  Done-Since)

  run_resolved-At :
      (approver : String) (p : Row) (target : Option Target)
      → Triple
          (At t id Status.approved)
          (run_resolved b id approver p target)
          (λ _. Done t id)
          (Since t)
  unfolding leads is_final
  run_resolved-At approver p none =
      Triple-bind _ _ (close_row-At Status.failed _ refl) λ _. Triple-pure _ (At-Done refl)
  run_resolved-At approver p (some target) = run_and_record-At approver p target

  -- After the approval the proposal only moves on, and an answer means that it is decided.
  pub execute-At :
      (approver : String)
      → Triple (At t id Status.approved) (execute b id approver) (λ _. Done t id) (Since t)
  unfolding execute leads is_final
  execute-At approver = Triple-bind _ _ (Keeps-to _ (Keeps-get_row id) At-Since) λ p.
      Triple-if _ _ _
        (Triple-bind _ _ (close_row-At Status.failed _ refl) λ _. Triple-pure _ (At-Done refl))
        (Triple-bind _ _ now-At λ n.
          Triple-if _ _ _
            (Triple-bind _ _ (close_row-At Status.expired _ refl) λ _. Triple-pure _ (At-Done refl))
            (Triple-bind _ _ (Keeps-to _ (Keeps-own_target b p.target_id) At-Since)
              (run_resolved-At approver p)))
