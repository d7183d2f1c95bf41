-- ===== src/Service/Altered.antt =====
-- Plans that were altered behind the broker's back (roles/msp_broker/files/broker/service.py, model.py
-- there).
use msp_fleet_public.Base.{
  ◌+◌, ◌<◌, String, true, false, ◌≡◌, ◌≢◌, refl, ◌∙◌, some, arith, ◌==◌, eq_iff, eq_refl,
  Bool-cases, inl, inr,
}
use msp_fleet_public.Broker.{Broker, World}
use msp_fleet_public.Broker.Actions.{expire, known_proposal, require_approve, now, write_row}
use msp_fleet_public.Exec.{◌>>=◌}
use msp_fleet_public.Failure.{err, refused, hash_mismatch}
use msp_fleet_public.Plan.{Plan}
use msp_fleet_public.Plan.Json.{plan_json}
use msp_fleet_public.Plan.Json.Injective.{plan_json-injective}
use msp_fleet_public.Platform.{Platform, plan_hash}
use msp_fleet_public.Policy.{Actor}
use msp_fleet_public.Service.Decide.{approve_check, check_hash, approve}
use msp_fleet_public.Service.Execute.{close_row}
use msp_fleet_public.Store.{get, expire_stale, expire_row}
use msp_fleet_public.Store.Lookups.{get-expire_stale, get-update}
use msp_fleet_public.Store.Rows.{Row, Status, is_proposed}

-- A plan with the hash of another is that plan, if hash and encoder tell the two apart.
plan_hash-injective :
    (pl : Platform) (p q : Plan)
    → (pl.sha256 (pl.canonical (plan_json p)) ≡ pl.sha256 (pl.canonical (plan_json q))
        → plan_json p ≡ plan_json q)
    → plan_hash pl p ≡ plan_hash pl q
    → p ≡ q
unfolding plan_hash
plan_hash-injective pl p q tells e = plan_json-injective p q (tells e)

module _ {H : Type 0} (b : Broker H) where
  differs :
      (r : Row) (p : Plan)
      → r.execution_hash ≡ plan_hash b.platform p
      → r.plan ≢ p
      → (b.platform.sha256 (b.platform.canonical (plan_json r.plan))
            ≡ b.platform.sha256 (b.platform.canonical (plan_json p))
          → plan_json r.plan ≡ plan_json p)
      → (plan_hash b.platform r.plan == r.execution_hash) ≡ false
  differs r p frozen_hash altered tells =
      elim (Bool-cases (plan_hash b.platform r.plan == r.execution_hash)) [
        | inl h ↦ absurd (
            altered (
              plan_hash-injective b.platform r.plan p tells
                ((eq_iff (plan_hash b.platform r.plan) r.execution_hash).0 h ∙ frozen_hash)))
        | inr h ↦ h
      ]

  seen :
      (w : World H) (id : String) (r : Row)
      → get w.proposals id ≡ some r
      → b.clock w.ticks < r.expires_at
      → get (expire_stale (b.clock w.ticks) w.proposals) id ≡ some r
  unfolding expire_row is_proposed
  seen w id r found alive =
      rw (get-expire_stale (b.clock w.ticks) w.proposals id, found) (ground arith)

  approve_mismatch :
      (actor : Actor) (id confirmation : String) (w : World H) (r : Row)
      → actor.can_approve ≡ true
      → get w.proposals id ≡ some r
      → (r.client_id == b.client.client_id) ≡ true
      → is_proposed r.status ≡ true
      → b.clock w.ticks < r.expires_at
      → (plan_hash b.platform r.plan == r.execution_hash) ≡ false
      → let (x, w') = approve b actor id confirmation w in
        (x ≡ err (refused hash_mismatch))
        × (w'.host ≡ w.host)
        × (w'.receipts ≡ w.receipts)
        × (q : Row) × (get w'.proposals id ≡ some q)
        × (q.status ≡ Status.failed)
  unfolding approve approve_check require_approve expire known_proposal check_hash close_row now
      write_row ◌>>=◌
  approve_mismatch actor id confirmation w r may found own awaiting alive broken =
      let there = seen w id r found alive in
      let at = b.clock (w.ticks + 1) in
      let close = λ (x : Row). record x {
        status = Status.failed;
        execution_finished_at = some at;
        result_summary = some "frozen plan hash mismatch";
      } in
      let failed_row =
        get-update id close (expire_stale (b.clock w.ticks) w.proposals) id (λ x. refl)
        ∙ rw (eq_refl id, there) refl in
      rw (may, there, own, awaiting, broken)
        (
          refl,
          refl,
          refl,
          record r {
            status = Status.failed;
            execution_finished_at = some at;
            result_summary = some "frozen plan hash mismatch";
          },
          failed_row,
          refl,
        )

  -- An approval of a proposal whose stored plan was altered is refused: if an approver asks for a
  -- proposal of the client that awaits approval and has time left, its stored hash is that of another
  -- plan than the stored one, and the hash and the encoder tell these two plans apart, then the approval
  -- is refused because of the hash, the host and the receipts stay as they are, and the proposal fails.
  pub approve_altered :
      (actor : Actor) (id confirmation : String) (w : World H) (r : Row) (p : Plan)
      → actor.can_approve ≡ true
      → get w.proposals id ≡ some r
      → (r.client_id == b.client.client_id) ≡ true
      → is_proposed r.status ≡ true
      → b.clock w.ticks < r.expires_at
      → r.execution_hash ≡ plan_hash b.platform p
      → r.plan ≢ p
      → (b.platform.sha256 (b.platform.canonical (plan_json r.plan))
            ≡ b.platform.sha256 (b.platform.canonical (plan_json p))
          → plan_json r.plan ≡ plan_json p)
      → let (x, w') = approve b actor id confirmation w in
        (x ≡ err (refused hash_mismatch))
        × (w'.host ≡ w.host)
        × (w'.receipts ≡ w.receipts)
        × (q : Row) × (get w'.proposals id ≡ some q)
        × (q.status ≡ Status.failed)
  approve_altered actor id confirmation w r p may found own awaiting alive frozen_hash altered
        tells =
      approve_mismatch actor id confirmation w r may found own awaiting alive
        (differs r p frozen_hash altered tells)
