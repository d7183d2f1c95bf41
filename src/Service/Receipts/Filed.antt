-- ===== src/Service/Receipts/Filed.antt =====
-- What the receipt of a decided proposal says (roles/msp_broker/files/broker/service.py).
use msp_fleet_public.Base.{ℕ, String, false, ◌≡◌, refl, Option, none, some, ◌==◌, if◌then◌else◌}
use msp_fleet_public.Broker.{Broker, World}
use msp_fleet_public.Broker.Actions.{now}
use msp_fleet_public.Exec.{◌>>=◌, modify}
use msp_fleet_public.Plan.{ExecResult}
use msp_fleet_public.Service.Views.{build_receipt, write_receipt, stamp}
use msp_fleet_public.Store.{get_receipt, add_receipt}
use msp_fleet_public.Store.Receipts.{get_receipt-add_receipt}
use msp_fleet_public.Store.Rows.{Row, Receipt, Status}

module _ {H : Type 0} (b : Broker H) where
  -- The stamp reads the clock at most.
  stamped :
      (o : Option ℕ) (id : String) (x : Receipt) (w : World H)
      → ((stamp b o >>= λ _. modify (λ v. record v { receipts = add_receipt id x v.receipts }))
          w).1.receipts
        ≡ add_receipt id x w.receipts
  unfolding now ◌>>=◌
  stamped none id x w = refl
  stamped (some t) id x w = refl

  -- The receipt of a proposal that is no script is found under it, built from the row, the final
  -- state, the approver and the result that were given, and no other receipt changes.
  pub get_receipt-write_receipt :
      (r : Row) (status : Status) (approver : String) (result : Option ExecResult) (w : World H)
      (j : String)
      → (r.operation == "script.run") ≡ false
      → get_receipt (write_receipt b r status approver result w).1.receipts j ≡ (
          if r.proposal_id == j
          then some (build_receipt b.platform r status approver result none)
          else get_receipt w.receipts j)
  unfolding write_receipt ◌>>=◌
  get_receipt-write_receipt r status approver result w j plain =
      let receipt = build_receipt b.platform r status approver result none in
      rw (plain, stamped r.execution_finished_at r.proposal_id receipt w)
        (get_receipt-add_receipt r.proposal_id receipt w.receipts j)
