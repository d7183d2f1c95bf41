-- ===== src/Service/Isolation.antt =====
-- Proposals of another client in the database (roles/msp_broker/files/broker/service.py).
use msp_fleet_public.Base.{String, Bool, true, false, ◌≡◌, refl, some, arith, ◌==◌, eq_iff}
use msp_fleet_public.Broker.{Broker, World}
use msp_fleet_public.Broker.Actions.{expire, now, known_proposal, require_read, require_approve}
use msp_fleet_public.Exec.{◌>>=◌}
use msp_fleet_public.Failure.{err, refused, unknown_proposal}
use msp_fleet_public.Policy.{Actor}
use msp_fleet_public.Service.Decide.{approve_check, approve, reject, cancel}
use msp_fleet_public.Service.Hosts.Authorised.{expired_world}
use msp_fleet_public.Service.Requests.{Request, show_proposal, proposal_read, handle}
use msp_fleet_public.Store.{get, expire_row}
use msp_fleet_public.Store.Lookups.{get-expire_stale}
use msp_fleet_public.Store.Rows.{Row}

-- The proposal that a request names, and whether the request needs an approver.
abbrev pub names_proposal : String → Request → Bool
names_proposal id (Request.approve i confirmation) = i == id
names_proposal id (Request.reject i reason) = i == id
names_proposal id (Request.cancel i) = i == id
names_proposal id (Request.show i) = i == id
names_proposal id (Request.status i) = i == id
names_proposal id (Request.read_proposal i) = i == id
names_proposal id _ = false

abbrev pub may_ask : Actor → Request → Bool
may_ask actor (Request.approve id confirmation) = actor.can_approve
may_ask actor (Request.reject id reason) = actor.can_approve
may_ask actor _ = actor.can_read

module _ {H : Type 0} (b : Broker H) (id : String) (p : Row) where
  foreign_after_expire :
      (w : World H)
      → get w.proposals id ≡ some p
      → (p.client_id == b.client.client_id) ≡ false
      → known_proposal b id (expired_world b w)
        ≡ (err (refused unknown_proposal), expired_world b w)
  unfolding known_proposal expire_row
  foreign_after_expire w found foreign =
      rw (get-expire_stale (b.clock w.ticks) w.proposals id, found) (ground arith)

  -- Whoever may ask for a proposal of another client, to read it or to decide it, is told that it is
  -- unknown, and nothing but the expiry of proposals happens.
  pub handle_foreign :
      (actor : Actor) (r : Request) (w : World H)
      → get w.proposals id ≡ some p
      → (p.client_id == b.client.client_id) ≡ false
      → names_proposal id r ≡ true
      → may_ask actor r ≡ true
      → handle b actor r w ≡ (err (refused unknown_proposal), expired_world b w)
  unfolding handle approve approve_check reject cancel show_proposal proposal_read require_read
      require_approve expire now ◌>>=◌
  handle_foreign actor (Request.approve i c) w found foreign e may =
      rw ((eq_iff i id).0 e, may, foreign_after_expire w found foreign) refl
  handle_foreign actor (Request.reject i c) w found foreign e may =
      rw ((eq_iff i id).0 e, may, foreign_after_expire w found foreign) refl
  handle_foreign actor (Request.cancel i) w found foreign e may =
      rw ((eq_iff i id).0 e, may, foreign_after_expire w found foreign) refl
  handle_foreign actor (Request.show i) w found foreign e may =
      rw ((eq_iff i id).0 e, may, foreign_after_expire w found foreign) refl
  handle_foreign actor (Request.status i) w found foreign e may =
      rw ((eq_iff i id).0 e, may, foreign_after_expire w found foreign) refl
  handle_foreign actor (Request.read_proposal i) w found foreign e may =
      rw ((eq_iff i id).0 e, may, foreign_after_expire w found foreign) refl
  handle_foreign actor _ w found foreign e may = cc
