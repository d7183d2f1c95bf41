-- ===== src/Service/Sound.antt =====
-- What holds of the frozen columns of every stored proposal
-- (roles/msp_broker/files/broker/service.py).
pub mod Proposing
pub mod Requests
use msp_fleet_public.Base.{
  ℕ, ◌+◌, String, Bool, true, false, ◌≡◌, refl, Option, none, some, List, [], ◌∷◌, ◌++◌, any, ◌==◌,
  inl, inr, Bool-cases, arith, subst, sym, map,
}
use msp_fleet_public.Adapter.{Adapter}
use msp_fleet_public.Broker.{Broker, World, Entry}
use msp_fleet_public.Broker.Actions.{expire, write_row, insert_row}
use msp_fleet_public.Broker.Frames.{TableFrame, TableFrame-Frame, Keeps-files, table_rules}
use msp_fleet_public.Exec.{Exec, ◌>>=◌}
use msp_fleet_public.Exec.Rules.{Post, Triple, Keeps}
use msp_fleet_public.Failure.{Result, ok, err}
use msp_fleet_public.Platform.{plan_hash}
use msp_fleet_public.Registry.{is_forbidden}
use msp_fleet_public.Service.Steps.Covered.{PlanCovered}
use msp_fleet_public.Store.{Table, update, expire_stale, expire_row, is_stale, insert_proposal}
use msp_fleet_public.Store.Moves.{frozen}
use msp_fleet_public.Store.Rows.{Row}

module _ {H : Type 0} (b : Broker H) where
  -- A stored proposal is of this client and site, its hash is that of its plan, its plan names its
  -- target and operation, its life is the policy's, its risk is not FORBIDDEN, and the steps of
  -- its plan are of registered operations that are not FORBIDDEN and at most as risky as it.
  pub record IsSound (r : Row) : Type 0 where
    pub client : r.client_id ≡ b.client.client_id
    pub site : r.site_id ≡ b.client.site_id
    pub hash : r.execution_hash ≡ plan_hash b.platform r.plan
    pub target : r.plan.target_id ≡ r.target_id
    pub operation : r.plan.operation ≡ r.operation
    pub life : r.expires_at ≡ r.created_at + b.policy.approval_ttl_seconds
    pub permitted : is_forbidden r.risk ≡ false
    pub covered : PlanCovered r.risk r.plan.steps

  -- Every row of a table is sound.
  abbrev pub AllSound : Table → Type 0
  AllSound [] = Unit
  AllSound (r ∷ t) = IsSound r × AllSound t

  -- Soundness speaks of frozen columns only.
  freeze_row : (r : Row) → IsSound r → IsSound (frozen r)
  unfolding frozen
  freeze_row r s = record {
    client = s.client;
    site = s.site;
    hash = s.hash;
    target = s.target;
    operation = s.operation;
    life = s.life;
    permitted = s.permitted;
    covered = s.covered;
  }

  thaw_row : (r : Row) → IsSound (frozen r) → IsSound r
  unfolding frozen
  thaw_row r s = record {
    client = s.client;
    site = s.site;
    hash = s.hash;
    target = s.target;
    operation = s.operation;
    life = s.life;
    permitted = s.permitted;
    covered = s.covered;
  }

  IsSound-frozen : (r q : Row) → frozen q ≡ frozen r → IsSound r → IsSound q
  IsSound-frozen r q e s = thaw_row q (subst IsSound (sym e) (freeze_row r s))

  AllSound-update :
      (id : String) (f : Row → Row) (t : Table)
      → ((r : Row) → frozen (f r) ≡ frozen r)
      → AllSound t
      → AllSound (update id f t)
  unfolding update
  AllSound-update id f [] keeps s = s
  AllSound-update id f (r ∷ t) keeps s = elim (Bool-cases (r.proposal_id == id)) [
    | inl e ↦ rw e (IsSound-frozen r (f r) (keeps r) s.0, AllSound-update id f t keeps s.1)
    | inr e ↦ rw e (s.0, AllSound-update id f t keeps s.1)
  ]

  AllSound-expire_stale : (n : ℕ) (t : Table) → AllSound t → AllSound (expire_stale n t)
  unfolding expire_stale frozen
  AllSound-expire_stale n [] s = s
  AllSound-expire_stale n (r ∷ t) s = elim (Bool-cases (is_stale n r)) [
    | inl e ↦ rw e (IsSound-frozen r _ refl s.0, AllSound-expire_stale n t s.1)
    | inr e ↦ rw e (s.0, AllSound-expire_stale n t s.1)
  ]

  AllSound-append : (t : Table) (r : Row) → AllSound t → IsSound r → AllSound (t ++ r ∷ [])
  AllSound-append [] r s h = (h, tt)
  AllSound-append (q ∷ t) r s h = (s.0, AllSound-append t r s.1 h)

  -- The rows of the world are sound.
  pub record Sound (w : World H) : Type 0 where
    pub rows : AllSound w.proposals

  pub Sound-frame : TableFrame Sound
  Sound-frame = record { moved = λ w v p s. record { rows = rw p s.rows } }

  pub expire-Sound : Keeps Sound (expire b)
  unfolding expire
  expire-Sound = record { at = λ w s. record { rows = AllSound-expire_stale _ w.proposals s.rows } }

  pub write_row-Sound :
      (id : String) (f : Row → Row)
      → ((r : Row) → frozen (f r) ≡ frozen r)
      → Keeps Sound (write_row id f)
  unfolding write_row
  write_row-Sound id f keeps = record {
    at = λ w s. record { rows = AllSound-update id f w.proposals keeps s.rows };
  }

  pub insert_row-Sound : (r : Row) → IsSound r → Keeps Sound (insert_row r)
  unfolding insert_row insert_proposal
  insert_row-Sound r h = record {
    at = λ w s. elim (Bool-cases (any (λ q. q.proposal_id == r.proposal_id) w.proposals)) [
      | inl e ↦ rw e s
      | inr e ↦ rw e (record { rows = AllSound-append w.proposals r s.rows h })
    ];
  }
