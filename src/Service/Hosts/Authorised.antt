-- ===== src/Service/Hosts/Authorised.antt =====
-- What `approve` requires before the host can change (roles/msp_broker/files/broker/service.py).
use msp_fleet_public.Base.{
  ◌+◌, ◌<◌, String, true, false, not, ◌&&◌, ◌≡◌, ◌≢◌, refl, subst, some, arith, ◌==◌,
}
use msp_fleet_public.Broker.{Broker, World, free}
use msp_fleet_public.Broker.Actions.{
  expire, known_proposal, require_approve, finally, acquire, now, write_row,
}
use msp_fleet_public.Exec.{continue, ◌>>=◌}
use msp_fleet_public.Failure.{Result, ok, err}
use msp_fleet_public.Platform.{plan_hash}
use msp_fleet_public.Policy.{Actor}
use msp_fleet_public.Registry.{is_high}
use msp_fleet_public.Broker.Frames.{host_rules}
use msp_fleet_public.Exec.Rules.{Keeps}
use msp_fleet_public.Service.Hosts.{HostIs, HostIs-frame, kept}
use msp_fleet_public.Service.Execute.{close_row}
use msp_fleet_public.Service.Decide.{
  check_hash, approve_check, approve_locked, approve_run, approve,
}
use msp_fleet_public.Store.{get, expire_stale}
use msp_fleet_public.Store.Rows.{Row, is_proposed}

module _ {H : Type 0} (b : Broker H) where
  -- The world after `_expire`.
  abbrev pub expired_world : World H → World H
  expired_world w = record w {
    proposals = expire_stale (b.clock w.ticks) w.proposals;
    ticks = w.ticks + 1;
  }

  -- What the checks of `approve` establish of the caller and of the row that was read.
  pub record Passed (actor : Actor) (id confirmation : String) (w : World H) (p : Row)
      : Type 0 where
    pub approver : actor.can_approve ≡ true
    pub found : get (expire_stale (b.clock w.ticks) w.proposals) id ≡ some p
    pub own : (p.client_id == b.client.client_id) ≡ true
    pub awaiting : is_proposed p.status ≡ true
    pub intact : (plan_hash b.platform p.plan == p.execution_hash) ≡ true
    pub confirmed : is_high p.risk && not (confirmation == p.confirmation) ≡ false

  -- When the checks of `approve` pass, the caller is an approver, the row that is returned is the
  -- stored one after `_expire`, is the client's, awaits approval, has the hash of its plan, and is not
  -- of HIGH risk unless the confirmation was typed; the world is as `_expire` left it.
  pub approve_check-Passed :
      (actor : Actor) (id confirmation : String) (w w' : World H) (p : Row)
      → approve_check b actor id confirmation w ≡ (ok p, w')
      → Passed actor id confirmation w p × (w' ≡ expired_world w)
  unfolding approve_check require_approve expire known_proposal check_hash ◌>>=◌
  approve_check-Passed actor id confirmation w w' p h = (ground arith, ground arith)

  pub approve_check-HostIs :
      {h : H} (actor : Actor) (id confirmation : String)
      → Keeps (HostIs h) (approve_check b actor id confirmation)
  unfolding approve_check check_hash close_row
  approve_check-HostIs actor id confirmation = search (host_rules, HostIs-frame) depth 16

  -- An approval that is refused by the lock or comes too late leaves the host alone.
  host-approve_run :
      (actor : Actor) (id : String) (p : Row) (w : World H)
      → (approve_run b actor id p w).1.host ≢ w.host
      → (w.lock ≡ free) × (b.clock w.ticks < p.expires_at)
  unfolding approve_run approve_locked acquire finally now write_row close_row ◌>>=◌
  host-approve_run actor id p w changed = (ground arith, ground arith)

  -- What held when an approval changed the host.
  pub record Authorised (actor : Actor) (id confirmation : String) (w : World H) : Type 0 where
    pub row : Row
    pub passed : Passed actor id confirmation w row
    pub lock_free : w.lock ≡ free
    pub in_time : b.clock (w.ticks + 1) < row.expires_at

  -- A result of the checks, and what the rest of `approve` makes of it.
  checked_first :
      (actor : Actor) (id confirmation : String) (w : World H) (x : Result Row × World H)
      → approve_check b actor id confirmation w ≡ x
      → (continue x.0 (λ p. approve_run b actor id p) x.1).1.host ≢ w.host
      → Authorised actor id confirmation w
  checked_first actor id confirmation w (err e, w') h changed = absurd (
      changed (
        subst (λ (x : Result Row × World H). x.1.host ≡ w.host) h
          (kept w.host _
            ((approve_check-HostIs actor id confirmation).at w (record { same = refl })))))
  checked_first actor id confirmation w (ok p, w') h changed =
      let (passed, e) = approve_check-Passed actor id confirmation w w' p h in
      let (lock_free, in_time) = host-approve_run actor id p (expired_world w) (rw e at changed) in
      record { row = p; passed = passed; lock_free = lock_free; in_time = in_time }

  -- An approval changes the host only if the caller is an approver, the proposal is the client's and
  -- awaits approval, its plan has the frozen hash, the confirmation of a HIGH risk was typed, no
  -- execution holds the lock, and the proposal has not expired when the lock is taken.
  pub host-approve-Authorised :
      (actor : Actor) (id confirmation : String) (w : World H)
      → (approve b actor id confirmation w).1.host ≢ w.host
      → Authorised actor id confirmation w
  unfolding approve ◌>>=◌
  host-approve-Authorised actor id confirmation w changed =
      checked_first actor id confirmation w _ refl changed
