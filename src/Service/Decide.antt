-- ===== src/Service/Decide.antt =====
-- `approve`, `reject` and `cancel` of roles/msp_broker/files/broker/service.py.
use msp_fleet_public.Base.{String, not, ◌&&◌, none, some, ◌==◌, nat_eq, leb, if◌then◌else◌}
use msp_fleet_public.Broker.{Broker, World, Entry}
use msp_fleet_public.Broker.Actions.{
  finally, now, expire, log, known_proposal, require_read, require_approve, get_row, write_row,
  acquire, release,
}
use msp_fleet_public.Exec.{Exec, pure, raise, refuse_if, ◌>>=◌, ◌>>◌}
use msp_fleet_public.Failure.{
  refused, not_awaiting, hash_mismatch, confirmation_mismatch, expired_proposal, not_requester,
}
use msp_fleet_public.Platform.{clamp, plan_hash}
use msp_fleet_public.Policy.{Actor}
use msp_fleet_public.Registry.{is_high}
use msp_fleet_public.Service.Execute.{Answer, execute, close_row}
use msp_fleet_public.Service.Views.{or_text, write_receipt}
use msp_fleet_public.Store.Rows.{Row, Status, is_proposed}

module _ {H : Type 0} (b : Broker H) where
  -- The hash test of `approve`: a mismatch fails the proposal, and is refused.
  unfoldable pub check_hash : String → Row → Exec (World H) (Unit {0})
  unfolding close_row
  check_hash id p =
      if plan_hash b.platform p.plan == p.execution_hash
      then pure tt
      else (close_row b id Status.failed "frozen plan hash mismatch"
          >> raise (refused hash_mismatch))

  -- `approve` up to the confirmation: the row as it was read then.
  unfoldable pub approve_check : Actor → String → String → Exec (World H) Row
  unfolding check_hash
  approve_check actor id confirmation = do
    require_approve actor
    expire b
    p ← known_proposal b id
    refuse_if (not (is_proposed p.status)) not_awaiting
    check_hash id p
    refuse_if (is_high p.risk && not (confirmation == p.confirmation)) confirmation_mismatch
    pure p

  -- What `approve` does while it holds the lock.
  unfoldable pub approve_locked : Actor → String → Row → Exec (World H) Answer
  unfolding close_row
  approve_locked actor id p = do
    t ← now b
    if leb p.expires_at t
        then (close_row b id Status.expired "expired before execution"
            >> raise (refused expired_proposal))
        else (do
          at ← now b
          write_row id (λ r. record r {
            status = Status.approved;
            approved_at = some at;
            approver = some actor.name;
          })
          log b (Entry.approved id actor.name p.risk)
          execute b id actor.name)

  -- From the lock to its release.
  unfoldable pub approve_run : Actor → String → Row → Exec (World H) Answer
  approve_run actor id p = do acquire; finally (approve_locked actor id p) release

  unfoldable pub approve : Actor → String → String → Exec (World H) Answer
  approve actor id confirmation = do p ← approve_check actor id confirmation; approve_run actor id p

  -- From the update to the receipt.
  unfoldable pub finish_reject : Actor → String → String → Exec (World H) (String × Status)
  finish_reject actor id reason = do
    t ← now b
    write_row id (λ r. record r {
      status = Status.rejected;
      approver = some actor.name;
      execution_finished_at = some t;
      result_summary = some (clamp b.platform 65536 (or_text reason "rejected"));
    })
    final ← get_row id
    write_receipt b final Status.rejected actor.name none
    log b (Entry.rejected id actor.name)
    pure (id, Status.rejected)

  unfoldable pub reject : Actor → String → String → Exec (World H) (String × Status)
  reject actor id reason = do
    require_approve actor
    expire b
    p ← known_proposal b id
    refuse_if (not (is_proposed p.status)) not_awaiting
    finish_reject actor id reason

  -- From the update to the receipt.
  unfoldable pub finish_cancel : Actor → String → Exec (World H) (String × Status)
  unfolding close_row
  finish_cancel actor id = do
    close_row b id Status.cancelled "cancelled"
    final ← get_row id
    write_receipt b final Status.cancelled actor.name none
    log b (Entry.cancelled id actor.uid)
    pure (id, Status.cancelled)

  unfoldable pub cancel : Actor → String → Exec (World H) (String × Status)
  cancel actor id = do
    require_read actor
    expire b
    p ← known_proposal b id
    refuse_if (not (nat_eq p.request_uid actor.uid) && not actor.can_approve) not_requester
    refuse_if (not (is_proposed p.status)) not_awaiting
    finish_cancel actor id
