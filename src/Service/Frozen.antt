-- ===== src/Service/Frozen.antt =====
-- Statements about the proposals that a write of other than the frozen columns keeps, under the steps
-- of an approval (roles/msp_broker/files/broker/service.py).
use msp_fleet_public.Base.{String, ◌≡◌, refl, Option, none, some}
use msp_fleet_public.Broker.{Broker, World}
use msp_fleet_public.Broker.Actions.{expire, write_row}
use msp_fleet_public.Broker.Frames.{
  TableFrame, TableFrame-Frame, Keeps-acquire, Keeps-now, table_rules,
}
use msp_fleet_public.Exec.Keeps.{Keeps-finally}
use msp_fleet_public.Exec.Rules.{Keeps, Triple-bind}
use msp_fleet_public.Plan.{Target}
use msp_fleet_public.Policy.{Actor}
use msp_fleet_public.Service.Decide.{check_hash, approve_check, approve_locked, approve_run}
use msp_fleet_public.Service.Execute.{close_row, run_and_record, run_resolved, execute}
use msp_fleet_public.Service.Receipts.{file_result-Keeps}
use msp_fleet_public.Service.Runs.Quiet.{guarded_run-Keeps}
use msp_fleet_public.Store.Moves.{frozen}
use msp_fleet_public.Store.Rows.{Row, Status}

module _ {H : Type 0} (b : Broker H) {P : World H → Type 0} (frame : TableFrame P)
    (expires : Keeps P (expire b))
    (writes : (id : String) (f : Row → Row)
      → ((r : Row) → frozen (f r) ≡ frozen r)
      → Keeps P (write_row id f)) where
  pub close_row-Keeps :
      (id : String) (status : Status) (why : String) → Keeps P (close_row b id status why)
  unfolding close_row frozen
  close_row-Keeps id status why =
      Triple-bind _ _ (Keeps-now b (TableFrame-Frame frame)) λ n. writes id _ (λ r. refl)

  check_hash-Keeps : (id : String) (p : Row) → Keeps P (check_hash b id p)
  unfolding check_hash
  check_hash-Keeps id p = search (table_rules, close_row-Keeps)

  pub approve_check-Keeps :
      (actor : Actor) (id confirmation : String) → Keeps P (approve_check b actor id confirmation)
  unfolding approve_check
  approve_check-Keeps actor id confirmation = search (table_rules, check_hash-Keeps) depth 12

  run_and_record-Keeps :
      (id approver : String) (p : Row) (target : Target)
      → Keeps P (run_and_record b id approver p target)
  unfolding run_and_record frozen
  run_and_record-Keeps id approver p target =
      Triple-bind _ _ (Keeps-now b (TableFrame-Frame frame)) λ started.
        Triple-bind _ _ (writes id _ (λ r. refl)) λ _.
          Triple-bind _ _ (guarded_run-Keeps b frame p target) λ result.
            Triple-bind _ _ (Keeps-now b (TableFrame-Frame frame)) λ finished.
              Triple-bind _ _ (writes id _ (λ r. refl))
                λ _. file_result-Keeps b (TableFrame-Frame frame) id approver _ result

  run_resolved-Keeps :
      (id approver : String) (p : Row) (target : Option Target)
      → Keeps P (run_resolved b id approver p target)
  run_resolved-Keeps id approver p none = search (table_rules, close_row-Keeps)
  run_resolved-Keeps id approver p (some target) = run_and_record-Keeps id approver p target

  execute-Keeps : (id approver : String) → Keeps P (execute b id approver)
  unfolding execute
  execute-Keeps id approver = search (table_rules, close_row-Keeps, run_resolved-Keeps) depth 12

  pub approve_locked-Keeps :
      (actor : Actor) (id : String) (p : Row) → Keeps P (approve_locked b actor id p)
  unfolding approve_locked frozen
  approve_locked-Keeps actor id p =
      search (table_rules, close_row-Keeps, writes, execute-Keeps, refl) depth 12

  pub approve_run-Keeps :
      (actor : Actor) (id : String) (p : Row) → Keeps P (approve_run b actor id p)
  unfolding approve_run
  approve_run-Keeps actor id p =
      Triple-bind _ _ (Keeps-acquire (TableFrame-Frame frame))
        λ _. Keeps-finally _ _ (approve_locked-Keeps actor id p) λ w s. frame.moved w _ refl s
