-- ===== src/Service/Receipts/Approved.antt =====
-- The receipt of an approval that ran (roles/msp_broker/files/broker/service.py).
use msp_fleet_public.Base.{ℤ, String, ◌≡◌, refl, subst, Option, none, some, eq_refl}
use msp_fleet_public.Broker.{Broker, World, Entry}
use msp_fleet_public.Broker.Actions.{now, log, get_row, present, finally, release}
use msp_fleet_public.Exec.{Exec, ◌>>=◌}
use msp_fleet_public.Exec.Rules.{
  Post, Triple, Triple-bind, Triple-pure, Triple-raise, Triple-lift, Triple-if,
}
use msp_fleet_public.Failure.{Result, ok, err, crash}
use msp_fleet_public.Plan.{ExecResult, Target}
use msp_fleet_public.Policy.{Actor}
use msp_fleet_public.Service.Decide.{approve_locked, approve_run, approve}
use msp_fleet_public.Service.Execute.{Answer, file_result, run_and_record, run_resolved, execute}
use msp_fleet_public.Service.Views.{build_receipt, write_receipt}
use msp_fleet_public.Store.{get, get_receipt}
use msp_fleet_public.Store.Lookups.{proposal_id-get}
use msp_fleet_public.Store.Receipts.{get_receipt-add_receipt}
use msp_fleet_public.Store.Rows.{Row, Receipt, Status}

-- A receipt of the proposal, with its final state and return code, is stored.
pub record Filed {H : Type 0} (id : String) (status : Status) (code : Option ℤ) (w : World H)
    : Type 0 where
  pub receipt : Receipt
  pub found : get_receipt w.receipts id ≡ some receipt
  pub state : receipt.status ≡ status
  pub rc : receipt.return_code ≡ code

-- What an answer with a return code promises.
abbrev pub Promised : {H : Type 0} → String → Answer → World H → Type 0
Promised id a w = (rc : ℤ) → a.rc ≡ some rc → Filed id a.status (some rc) w

anything : {S A : Type 0} (r : Result A × S) → Post (λ a s. Unit) (λ s. Unit) r
anything (ok a, s) = tt
anything (err e, s) = tt

Triple-any : {S A : Type 0} (m : Exec S A) → Triple (λ s. Unit) m (λ a s. Unit) (λ s. Unit)
Triple-any m = record { at = λ s u. anything (m s) }

module _ {H : Type 0} (b : Broker H) where
  write_receipt-Filed :
      (r : Row) (status : Status) (approver : String) (result : ExecResult)
      → Triple {S = World H}
          (λ w. Unit)
          (write_receipt b r status approver (some result))
          (λ u w. Filed r.proposal_id status (some result.rc) w)
          (λ w. Unit)
  unfolding write_receipt build_receipt
  write_receipt-Filed r status approver result =
      Triple-lift _ _ (λ w u. tt)
        λ script e. Triple-bind _ _ (Triple-any _) λ x. record {
          at = λ w u. record {
            receipt = build_receipt b.platform r status approver (some result) script;
            found =
                rw (get_receipt-add_receipt r.proposal_id _ w.receipts r.proposal_id, eq_refl) refl;
            state = refl;
            rc = refl;
          };
        }

  log-Filed :
      (id : String) (status : Status) (code : Option ℤ) (e : Entry)
      → Triple {S = World H}
          (Filed id status code)
          (log b e)
          (λ u w. Filed id status code w)
          (λ w. Unit)
  unfolding log now ◌>>=◌
  log-Filed id status code e = record {
    at = λ w f. record { receipt = f.receipt; found = f.found; state = f.state; rc = f.rc };
  }

  with_fact :
      {A F : Type 0} {Q : A → World H → Type 0} (m : Exec (World H) A)
      → (F → Triple (λ w. Unit) m Q (λ w. Unit))
      → Triple (λ w. F) m Q (λ w. Unit)
  with_fact m k = record { at = λ w f. (k f).at w tt }

  got :
      (id : String) (o : Option Row) (w : World H)
      → get w.proposals id ≡ o
      → Post (λ (r : Row) v. r.proposal_id ≡ id) (λ v. Unit) (present o crash, w)
  got id none w e = tt
  got id (some r) w e = proposal_id-get w.proposals id r e

  got_row :
      (id : String)
      → Triple {S = World H}
          (λ w. Unit)
          (get_row id)
          (λ (r : Row) v. r.proposal_id ≡ id)
          (λ v. Unit)
  unfolding get_row
  got_row id = record { at = λ w u. got id _ w refl }

  file_result-Promised :
      (id approver : String) (status : Status) (result : ExecResult)
      → Triple
          (λ w. Unit)
          (file_result b id approver status result)
          (λ a w. Promised id a w)
          (λ w. Unit)
  unfolding file_result
  file_result-Promised id approver status result = Triple-bind _ _ (got_row id) λ r.
      with_fact _ λ e. Triple-bind _ _ (write_receipt-Filed r status approver result) λ x.
        Triple-bind _ _ (log-Filed r.proposal_id status (some result.rc) _) λ y.
          Triple-pure _ (λ w f rc k.
            subst (λ c. Filed id status c w) k (subst (λ i. Filed i status (some result.rc) w) e f))

  run_and_record-Promised :
      (id approver : String) (p : Row) (target : Target)
      → Triple
          (λ w. Unit)
          (run_and_record b id approver p target)
          (λ a w. Promised id a w)
          (λ w. Unit)
  unfolding run_and_record
  run_and_record-Promised id approver p target = Triple-bind _ _ (Triple-any _) λ started.
      Triple-bind _ _ (Triple-any _) λ x. Triple-bind _ _ (Triple-any _) λ result.
        Triple-bind _ _ (Triple-any _)
          λ finished. Triple-bind _ _ (Triple-any _) λ y. file_result-Promised id approver _ result

  -- An answer without a return code promises nothing.
  no_code :
      (id : String) (status : Status) (w : World H) (rc : ℤ)
      → none ≡ some rc
      → Filed id status (some rc) w
  no_code id status w rc e = cc

  run_resolved-Promised :
      (id approver : String) (p : Row) (o : Option Target)
      → Triple (λ w. Unit) (run_resolved b id approver p o) (λ a w. Promised id a w) (λ w. Unit)
  run_resolved-Promised id approver p none =
      Triple-bind _ _ (Triple-any _) λ x. Triple-pure _ (λ w u rc. no_code id _ w rc)
  run_resolved-Promised id approver p (some target) = run_and_record-Promised id approver p target

  execute-Promised :
      (id approver : String)
      → Triple (λ w. Unit) (execute b id approver) (λ a w. Promised id a w) (λ w. Unit)
  unfolding execute
  execute-Promised id approver = Triple-bind _ _ (Triple-any _) λ p.
      Triple-if _ _ _
        (Triple-bind _ _ (Triple-any _) λ x. Triple-pure _ (λ w u rc. no_code id _ w rc))
        (Triple-bind _ _ (Triple-any _) λ n.
          Triple-if _ _ _
            (Triple-bind _ _ (Triple-any _) λ x. Triple-pure _ (λ w u rc. no_code id _ w rc))
            (Triple-bind _ _ (Triple-any _) (run_resolved-Promised id approver p)))

  approve_locked-Promised :
      (actor : Actor) (id : String) (p : Row)
      → Triple (λ w. Unit) (approve_locked b actor id p) (λ a w. Promised id a w) (λ w. Unit)
  unfolding approve_locked
  approve_locked-Promised actor id p = Triple-bind _ _ (Triple-any _) λ n.
      Triple-if _ _ _ (Triple-bind _ _ (Triple-any _) λ x. Triple-raise _ (λ w u. tt)) (
        Triple-bind _ _ (Triple-any _) λ at.
          Triple-bind _ _ (Triple-any _)
            λ x. Triple-bind _ _ (Triple-any _) λ y. execute-Promised id actor.name)

  unlocked :
      (id : String) (r : Result Answer × World H)
      → Post (λ a w. Promised id a w) (λ w. Unit) r
      → Post (λ a w. Promised id a w) (λ w. Unit) (r.0, release r.1)
  unlocked id (ok a, w) f = λ rc e.
      let g = f rc e in record { receipt = g.receipt; found = g.found; state = g.state; rc = g.rc }
  unlocked id (err x, w) f = tt

  approve-Promised :
      (actor : Actor) (id confirmation : String)
      → Triple (λ w. Unit) (approve b actor id confirmation) (λ a w. Promised id a w) (λ w. Unit)
  unfolding approve approve_run finally
  approve-Promised actor id confirmation = Triple-bind _ _ (Triple-any _) λ p.
      Triple-bind _ _ (Triple-any _)
        λ x. record { at = λ w u. unlocked id _ ((approve_locked-Promised actor id p).at w u) }

  answered_by :
      (id : String) (r : Result Answer × World H) (a : Answer) (w' : World H)
      → Post (λ a w. Promised id a w) (λ w. Unit) r
      → r ≡ (ok a, w')
      → Promised id a w'
  answered_by id r a w' p e = subst (λ x. Post (λ a w. Promised id a w) (λ w. Unit) x) e p

  -- When an approval answers with a return code, a receipt of the proposal is stored that has the
  -- state and the return code of the answer.
  pub approve-Filed :
      (actor : Actor) (id confirmation : String) (w w' : World H) (a : Answer) (rc : ℤ)
      → approve b actor id confirmation w ≡ (ok a, w')
      → a.rc ≡ some rc
      → Filed id a.status (some rc) w'
  approve-Filed actor id confirmation w w' a rc e =
      answered_by id _ a w' ((approve-Promised actor id confirmation).at w tt) e rc
