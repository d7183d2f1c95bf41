-- ===== src/Service/Receipts.antt =====
-- Writing a receipt, and what ends a run, in relation to the proposals and the host
-- (roles/msp_broker/files/broker/service.py).
pub mod Filed
pub mod Approved
use msp_fleet_public.Base.{ℕ, String, Option, none, some}
use msp_fleet_public.Broker.{Broker, World, Entry}
use msp_fleet_public.Broker.Actions.{get_row, log}
use msp_fleet_public.Broker.Frames.{Frame, Keeps-receipts, frame_rules}
use msp_fleet_public.Exec.{pure, ◌>>=◌}
use msp_fleet_public.Exec.Keeps.{keeps_rules}
use msp_fleet_public.Exec.Rules.{Keeps}
use msp_fleet_public.Plan.{ExecResult}
use msp_fleet_public.Service.Execute.{file_result}
use msp_fleet_public.Service.Views.{write_receipt, stamp}
use msp_fleet_public.Store.Rows.{Row, Status}

module _ {H : Type 0} {P : World H → Type 0} (b : Broker H) (frame : Frame P) where
  stamp-Keeps : (o : Option ℕ) → Keeps P (stamp b o)
  stamp-Keeps (some t) = search keeps_rules
  stamp-Keeps none = search frame_rules

  pub write_receipt-Keeps :
      (r : Row) (status : Status) (approver : String) (result : Option ExecResult)
      → Keeps P (write_receipt b r status approver result)
  unfolding write_receipt
  write_receipt-Keeps r status approver result = search (frame_rules, stamp-Keeps, Keeps-receipts)

  pub file_result-Keeps :
      (id approver : String) (status : Status) (result : ExecResult)
      → Keeps P (file_result b id approver status result)
  unfolding file_result
  file_result-Keeps id approver status result = search (frame_rules, write_receipt-Keeps)

  -- The read of the row, the receipt, the log and the answer after a decision.
  pub decided-Keeps :
      (id : String) (status : Status) (approver : String) (e : Entry) (answer : String × Status)
      → Keeps P (
          get_row id >>= λ final.
          write_receipt b final status approver none >>= λ _. log b e >>= λ _. pure answer)
  decided-Keeps id status approver e answer = search (frame_rules, write_receipt-Keeps)
