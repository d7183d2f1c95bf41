-- ===== src/Service/Life/Deciding.antt =====
-- `approve`, `reject` and `cancel` and the order of states (roles/msp_broker/files/broker/service.py).
use msp_fleet_public.Base.{String, Bool, true, false, not, ◌≡◌, refl, arith}
use msp_fleet_public.Broker.{Broker, World}
use msp_fleet_public.Broker.Actions.{finally, release}
use msp_fleet_public.Broker.Frames.{
  TableFrame-Frame, Keeps-log, Keeps-acquire, Keeps-require_read, Keeps-require_approve,
}
use msp_fleet_public.Exec.Rules.{
  Post, Triple, Keeps, Triple-bind, Triple-pure, Triple-raise, Triple-if, Triple-weaken,
  Triple-refuse_if, Triple-strengthen, Keeps-to,
}
use msp_fleet_public.Failure.{Result, ok, err}
use msp_fleet_public.Policy.{Actor}
use msp_fleet_public.Service.Decide.{
  check_hash, approve_check, approve_locked, approve_run, approve, finish_reject, reject,
  finish_cancel, cancel,
}
use msp_fleet_public.Service.Life.{
  Since, At, Done, Done-Since, Since-frame, At-frame, At-Since, Got-Since, Got-At, expire-Since,
  known_proposal-Got, write_row-At,
}
use msp_fleet_public.Service.Life.Running.{now-At, close_row-At, execute-At}
use msp_fleet_public.Service.Receipts.{decided-Keeps}
use msp_fleet_public.Store.{Table}
use msp_fleet_public.Store.Moves.{frozen, leads}
use msp_fleet_public.Store.Rows.{Row, Status}

awaiting : (b : Bool) → not b ≡ false → b ≡ true
awaiting b h = ground arith

module _ {H : Type 0} {t : Table} {id : String} (b : Broker H) where
  check_hash-At :
      (p : Row)
      → Triple
          (At t id Status.proposed)
          (check_hash b id p)
          (λ _. At t id Status.proposed)
          (Since t)
  unfolding check_hash leads
  check_hash-At p =
      Triple-if _ _ _ (Triple-pure _ (λ w a. a))
        (Triple-bind _ _ (close_row-At b Status.failed _ refl) λ _. Triple-raise _ At-Since)

  -- What passes the checks is a proposal that awaits approval.
  pub approve_check-At :
      (actor : Actor) (confirmation : String)
      → Triple
          (Since t)
          (approve_check b actor id confirmation)
          (λ p. At t id Status.proposed)
          (Since t)
  unfolding approve_check
  approve_check-At actor confirmation = Triple-bind _ _ (Keeps-require_approve actor) λ _.
      Triple-bind _ _ (expire-Since b) λ _. Triple-bind _ _ (known_proposal-Got b) λ p.
        Triple-refuse_if _ _ _ Got-Since λ open_. Triple-weaken _ (Got-At (awaiting _ open_)) (
          Triple-bind _ _ (check_hash-At p)
            λ _. Triple-refuse_if _ _ _ At-Since λ _. Triple-pure _ (λ w a. a))

  approve_locked-At :
      (actor : Actor) (p : Row)
      → Triple (At t id Status.proposed) (approve_locked b actor id p) (λ _. Done t id) (Since t)
  unfolding approve_locked leads frozen
  approve_locked-At actor p = Triple-bind _ _ (now-At b) λ n.
      Triple-if _ _ _
        (Triple-bind _ _ (close_row-At b Status.expired _ refl) λ _. Triple-raise _ At-Since)
        (Triple-bind _ _ (now-At b) λ at.
          Triple-bind _ _ (write_row-At Status.approved _ refl (λ r. refl) (λ r. refl) (λ r. refl))
            λ _.
              Triple-bind _ _ (Keeps-to _ (Keeps-log b _ (TableFrame-Frame At-frame)) At-Since)
                λ _. execute-At b actor.name)

released :
    {H A : Type 0} (t : Table) (id : String) (r : Result A × World H)
    → Post (λ _. Done t id) (Since t) r
    → Post (λ _. Done t id) (Since t) (r.0, release r.1)
released t id (ok a, w) d = record {
  moves = d.moves;
  row = d.row;
  found = d.found;
  final = d.final;
}
released t id (err e, w) s = record { moves = s.moves }

module _ {H : Type 0} {t : Table} (b : Broker H) (id : String) where
  pub approve_run-At :
      (actor : Actor) (p : Row)
      → Triple (At t id Status.proposed) (approve_run b actor id p) (λ _. Done t id) (Since t)
  unfolding approve_run finally
  approve_run-At actor p =
      Triple-bind _ _ (Keeps-to _ (Keeps-acquire (TableFrame-Frame At-frame)) At-Since)
        λ _. record { at = λ w a. released _ _ _ ((approve_locked-At b actor p).at w a) }

  -- An approval that returns leaves the proposal decided.
  pub approve-Done :
      (actor : Actor) (confirmation : String)
      → Triple (Since t) (approve b actor id confirmation) (λ _. Done t id) (Since t)
  unfolding approve
  approve-Done actor confirmation =
      Triple-bind _ _ (approve_check-At b actor confirmation) λ p. approve_run-At actor p

  pub approve-Since :
      (actor : Actor) (confirmation : String) → Keeps (Since t) (approve b actor id confirmation)
  approve-Since actor confirmation =
      Triple-strengthen _ (λ a. Done-Since) (approve-Done actor confirmation)

  -- The read, the receipt and the answer after a decision.
  finish_reject-Since :
      (actor : Actor) (reason : String)
      → Triple (At t id Status.proposed) (finish_reject b actor id reason) (λ _. Since t) (Since t)
  unfolding finish_reject frozen leads
  finish_reject-Since actor reason = Triple-bind _ _ (now-At b) λ n.
      Triple-bind _ _ (write_row-At Status.rejected _ refl (λ r. refl) (λ r. refl) (λ r. refl))
        λ _. Triple-weaken _ At-Since (decided-Keeps b (TableFrame-Frame Since-frame) _ _ _ _ _)

  pub reject-Since : (actor : Actor) (reason : String) → Keeps (Since t) (reject b actor id reason)
  unfolding reject
  reject-Since actor reason = Triple-bind _ _ (Keeps-require_approve actor) λ _.
      Triple-bind _ _ (expire-Since b) λ _. Triple-bind _ _ (known_proposal-Got b) λ p.
        Triple-refuse_if _ _ _ Got-Since
          λ open_. Triple-weaken _ (Got-At (awaiting _ open_)) (finish_reject-Since actor reason)

  finish_cancel-Since :
      (actor : Actor)
      → Triple (At t id Status.proposed) (finish_cancel b actor id) (λ _. Since t) (Since t)
  unfolding finish_cancel leads
  finish_cancel-Since actor =
      Triple-bind _ _ (close_row-At b Status.cancelled _ refl)
        λ _. Triple-weaken _ At-Since (decided-Keeps b (TableFrame-Frame Since-frame) _ _ _ _ _)

  pub cancel-Since : (actor : Actor) → Keeps (Since t) (cancel b actor id)
  unfolding cancel
  cancel-Since actor = Triple-bind _ _ (Keeps-require_read actor) λ _.
      Triple-bind _ _ (expire-Since b) λ _. Triple-bind _ _ (known_proposal-Got b) λ p.
        Triple-refuse_if _ _ _ Got-Since λ _.
          Triple-refuse_if _ _ _ Got-Since
            λ open_. Triple-weaken _ (Got-At (awaiting _ open_)) (finish_cancel-Since actor)
