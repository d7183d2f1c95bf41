-- ===== src/Service/Answers/Running/Approving.antt =====
-- An approval that nothing stands against comes to an answer
-- (roles/msp_broker/files/broker/service.py).
use msp_fleet_public.Base.{
  ℕ, ◌+◌, ◌≤◌, ◌<◌, ℤ, String, true, false, not, ◌&&◌, ◌≡◌, refl, some, arith, ◌==◌, leb,
}
use msp_fleet_public.Broker.{Broker, World, free}
use msp_fleet_public.Broker.Actions.{
  require_approve, expire, known_proposal, acquire, acquire_at, finally, release, now,
}
use msp_fleet_public.Exec.{◌>>=◌}
use msp_fleet_public.Exec.Rules.{Post, Triple, Triple-bind, Triple-fact}
use msp_fleet_public.Failure.{Result, ok, err}
use msp_fleet_public.Plan.{Target}
use msp_fleet_public.Platform.{plan_hash}
use msp_fleet_public.Policy.{Actor}
use msp_fleet_public.Registry.{is_high}
use msp_fleet_public.Service.Answers.{Never, Present, Still, now-Still, log-Still, write_row-Still}
use msp_fleet_public.Service.Answers.Running.{has_script, IsOf, OfStatus, Coded, execute-Coded}
use msp_fleet_public.Service.Decide.{
  check_hash, approve_check, approve_locked, approve_run, approve,
}
use msp_fleet_public.Service.Execute.{Answer}
use msp_fleet_public.Service.Hosts.Authorised.{expired_world}
use msp_fleet_public.Service.Receipts.Approved.{Filed, approve-Filed}
use msp_fleet_public.Store.{get, expire_row, inventory_get}
use msp_fleet_public.Store.Lookups.{get-expire_stale}
use msp_fleet_public.Store.Moves.{frozen}
use msp_fleet_public.Store.Rows.{Row, Status, is_proposed}

module _ {H : Type 0} (b : Broker H) where
  -- What an approval needs when it comes to the lock with a row `p` that it has read before: the
  -- stored row still has the frozen columns of `p`, in whatever state, with the hash of the plan, its
  -- script if it is one, and a target of the client; the lock is free; and the clock shows no time past
  -- the proposal's life in its next four readings.
  pub record Runnable (id : String) (w : World H) (p : Row) (target : Target) : Type 0 where
    pub stored : Present id (IsOf p) w
    pub intact : (plan_hash b.platform p.plan == p.execution_hash) ≡ true
    pub with_script : has_script p ≡ true
    pub there : inventory_get w.inventory p.target_id ≡ some target
    pub own_target : (target.client_id == b.client.client_id) ≡ true
    pub lock_free : w.lock ≡ free
    pub in_time : (n : ℕ) → n ≤ w.ticks + 3 → b.clock n < p.expires_at

  -- An answer with a return code, whose state is that of the stored row, and a lock that is free again.
  pub record Carried (actor : Actor) (id : String) (p : Row) (w : World H) : Type 0 where
    pub answer : Answer
    pub left : World H
    pub returned : approve_run b actor id p w ≡ (ok answer, left)
    pub code : ℤ
    pub coded : answer.rc ≡ some code
    pub stored : Present id (OfStatus p answer.status) left
    pub unlocked : left.lock ≡ free

  module _ (actor : Actor) (id : String) (w : World H) (p : Row) (target : Target)
      (ready : Runnable id w p target) where
    -- the world in which the lock is held
    abbrev locked : World H
    locked = (acquire_at free w).1

    at_start : Still id (IsOf p) w.inventory w.ticks locked
    at_start = record {
      here = record {
        row = ready.stored.row;
        found = ready.stored.found;
        fact = ready.stored.fact;
      };
      known = refl;
      ticks = refl;
    }

    not_late : (t : ℕ) → t ≡ b.clock w.ticks → leb p.expires_at t ≡ false
    not_late t e =
        let alive : b.clock w.ticks < p.expires_at = ready.in_time w.ticks (omega arith) in
        rw e (ground arith)

    approve_locked-Coded :
        Triple
          (Still id (IsOf p) w.inventory w.ticks)
          (approve_locked b actor id p)
          (Coded b id p ready.with_script)
          Never
    unfolding approve_locked frozen
    approve_locked-Coded = Triple-bind _ _ (now-Still b id w.inventory w.ticks) λ t.
        Triple-fact _ λ e. rw (not_late t e) (
          Triple-bind _ _ (now-Still b id w.inventory (w.ticks + 1)) λ at. Triple-fact _ λ f.
            Triple-bind _ _
              (write_row-Still id _ (λ x. refl) (λ x g. g) w.inventory (w.ticks + 1 + 1))
              λ u. Triple-bind _ _ (log-Still b id _ w.inventory (w.ticks + 1 + 1)) λ v.
                execute-Coded b id p ready.with_script target w.inventory (w.ticks + 1 + 1 + 1)
                  ready.intact (ready.in_time (w.ticks + 1 + 1 + 1) (omega arith)) ready.there
                  ready.own_target actor.name)

    runs :
        approve_run b actor id p w
        ≡ ((approve_locked b actor id p locked).0, release (approve_locked b actor id p locked).1)
    unfolding approve_run acquire finally ◌>>=◌
    runs = rw ready.lock_free refl

    carried :
        (r : Result Answer × World H)
        → Post (Coded b id p ready.with_script) Never r
        → approve_run b actor id p w ≡ (r.0, release r.1)
        → Carried actor id p w
    carried (err e, v) never e' = absurd never
    carried (ok a, v) coded e = record {
      answer = a;
      left = release v;
      returned = e;
      code = coded.code;
      coded = coded.returned;
      stored = record { row = coded.final.row; found = coded.final.found; fact = coded.final.fact };
      unlocked = refl;
    }

    -- An approval that has read a row and comes to the lock is carried out whatever the state of the
    -- stored row is by then, also if the proposal has been executed in between, if: the stored row still
    -- has the frozen columns of the row read, its plan has the hash, it has its script if it is one, its
    -- target is in the inventory and the client's, the lock is free, and the clock shows no time past
    -- the proposal's life in its next four readings. It raises nothing and returns an answer with a
    -- return code, the stored row gets its state, and the lock is free again.
    pub approve_run-Carried : Carried actor id p w
    approve_run-Carried = carried _ (approve_locked-Coded.at locked at_start) runs

  -- What an approval needs: an approver who types the confirmation that a HIGH risk asks for; a
  -- proposal of the client that awaits approval, with the hash of its plan, its script if it is one,
  -- and a target of the client; a free lock; and a clock that shows no time past the proposal's life
  -- in its next five readings.
  pub record Approvable (actor : Actor) (id confirmation : String) (w : World H) (p : Row)
      (target : Target) : Type 0 where
    pub approver : actor.can_approve ≡ true
    pub found : get w.proposals id ≡ some p
    pub own : (p.client_id == b.client.client_id) ≡ true
    pub awaiting : p.status ≡ Status.proposed
    pub intact : (plan_hash b.platform p.plan == p.execution_hash) ≡ true
    pub confirmed : is_high p.risk && not (confirmation == p.confirmation) ≡ false
    pub with_script : has_script p ≡ true
    pub there : inventory_get w.inventory p.target_id ≡ some target
    pub own_target : (target.client_id == b.client.client_id) ≡ true
    pub lock_free : w.lock ≡ free
    pub in_time : (n : ℕ) → n ≤ w.ticks + 4 → b.clock n < p.expires_at

  -- What comes of it: an answer with a return code, whose state is that of the stored row and of the
  -- stored receipt, and a lock that is free again.
  pub record Answered (actor : Actor) (id confirmation : String) (w : World H) (p : Row)
      : Type 0 where
    pub answer : Answer
    pub left : World H
    pub returned : approve b actor id confirmation w ≡ (ok answer, left)
    pub code : ℤ
    pub coded : answer.rc ≡ some code
    pub stored : Present id (OfStatus p answer.status) left
    pub filed : Filed id answer.status (some code) left
    pub unlocked : left.lock ≡ free

  module _ (actor : Actor) (id confirmation : String) (w : World H) (p : Row) (target : Target)
      (ready : Approvable actor id confirmation w p target) where
    -- the row is there after `_expire`
    seen : get (expired_world b w).proposals id ≡ some p
    unfolding expire_row is_proposed
    seen =
        let alive : b.clock w.ticks < p.expires_at = ready.in_time w.ticks (omega arith) in
        rw (get-expire_stale (b.clock w.ticks) w.proposals id, ready.found) (ground arith)

    checked : approve_check b actor id confirmation w ≡ (ok p, expired_world b w)
    unfolding approve_check require_approve expire known_proposal check_hash is_proposed now ◌>>=◌
    checked =
        rw (ready.approver, seen, ready.own, ready.awaiting, ready.intact, ready.confirmed) refl

    at_lock : Carried actor id p (expired_world b w)
    at_lock = approve_run-Carried actor id (expired_world b w) p target (record {
      stored = record { row = p; found = seen; fact = refl };
      intact = ready.intact;
      with_script = ready.with_script;
      there = ready.there;
      own_target = ready.own_target;
      lock_free = ready.lock_free;
      in_time = λ n h. ready.in_time n (omega (arith, h));
    })

    returns : approve b actor id confirmation w ≡ (ok at_lock.answer, at_lock.left)
    unfolding approve ◌>>=◌
    returns = rw checked at_lock.returned

    -- An approval that nothing stands against is carried out: it raises nothing, whatever the adapter
    -- does, and returns an answer with a return code; the stored row has the frozen columns that it had
    -- and the state of the answer, a receipt with this state and code is stored, and the lock is free.
    pub approve-Answered : Answered actor id confirmation w p
    approve-Answered = record {
      answer = at_lock.answer;
      left = at_lock.left;
      returned = returns;
      code = at_lock.code;
      coded = at_lock.coded;
      stored = at_lock.stored;
      filed =
          approve-Filed b actor id confirmation w at_lock.left at_lock.answer at_lock.code returns
            at_lock.coded;
      unlocked = at_lock.unlocked;
    }
