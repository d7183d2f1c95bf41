-- ===== src/Service/Race/Waiting.antt =====
-- What holds of the approvals that wait for the lock, however requests and approvals interleave
-- (roles/msp_broker/files/broker/service.py).
use msp_fleet_public.Base.{String, true, ◌≡◌, refl, ap, ◌∙◌, some, List, [], ◌∷◌, ◌++◌}
use msp_fleet_public.Broker.{Broker, World}
use msp_fleet_public.Failure.{ok}
use msp_fleet_public.Policy.{Actor}
use msp_fleet_public.Service.Decide.{approve_check}
use msp_fleet_public.Service.Hosts.Authorised.{approve_check-Passed}
use msp_fleet_public.Service.Race.{
  Pending, System, Step, Steps, Keeping, Keeping-refl, Keeping-trans, step-Keeping,
}
use msp_fleet_public.Store.{Table, get}
use msp_fleet_public.Store.Moves.{frozen}
use msp_fleet_public.Store.Rows.{Row}

-- The caller may approve, and the stored row has the frozen columns of the row that was read.
pub record IsWaiting (t : Table) (x : Pending) : Type 0 where
  pub approver : x.actor.can_approve ≡ true
  pub row : Row
  pub found : get t x.id ≡ some row
  pub same : frozen row ≡ frozen x.row

abbrev pub AllWaiting : Table → List Pending → Type 0
AllWaiting t [] = Unit {0}
AllWaiting t (x ∷ ps) = IsWaiting t x × AllWaiting t ps

IsWaiting-Keeping : (t u : Table) (x : Pending) → Keeping t u → IsWaiting t x → IsWaiting u x
IsWaiting-Keeping t u x k h =
    let (r, found, e) = k.at x.id h.row h.found in
    record { approver = h.approver; row = r; found = found; same = e ∙ h.same }

AllWaiting-Keeping :
    (t u : Table) (ps : List Pending) → Keeping t u → AllWaiting t ps → AllWaiting u ps
AllWaiting-Keeping t u [] k h = tt
AllWaiting-Keeping t u (x ∷ ps) k h =
    (IsWaiting-Keeping t u x k h.0, AllWaiting-Keeping t u ps k h.1)

others :
    (t : Table) (x : Pending) (before after : List Pending)
    → AllWaiting t (before ++ x ∷ after)
    → AllWaiting t (before ++ after)
others t x [] after h = h.1
others t x (y ∷ before) after h = (h.0, others t x before after h.1)

module _ {H : Type 0} (b : Broker H) where
  -- What a state without waiting approvals leads to.
  pub record Reached (s s' : System H) : Type 0 where
    pub keeping : Keeping s.world.proposals s'.world.proposals
    pub waiting : AllWaiting s'.world.proposals s'.pending

  IsWaiting-approve_check :
      (actor : Actor) (id confirmation : String) (w w' : World H) (p : Row)
      → approve_check b actor id confirmation w ≡ (ok p, w')
      → IsWaiting w'.proposals (record { actor = actor; id = id; row = p })
  IsWaiting-approve_check actor id confirmation w w' p e =
      let (passed, after) = approve_check-Passed b actor id confirmation w w' p e in
      record {
        approver = passed.approver;
        row = p;
        found = ap (λ (v : World H). get v.proposals id) after ∙ passed.found;
        same = refl;
      }

  step-AllWaiting :
      (s s' : System H)
      → Step b s s'
      → AllWaiting s.world.proposals s.pending
      → AllWaiting s'.world.proposals s'.pending
  step-AllWaiting s s' (Step.request actor r w ps) h =
      AllWaiting-Keeping _ _ ps (step-Keeping b _ _ (Step.request actor r w ps)) h
  step-AllWaiting s s' (Step.checked actor id confirmation w w' p ps e) h = (
    IsWaiting-approve_check actor id confirmation w w' p e,
    AllWaiting-Keeping _ _ ps (step-Keeping b _ _ (Step.checked actor id confirmation w w' p ps e))
        h,
  )
  step-AllWaiting s s' (Step.refused actor id confirmation w w' e ps f) h =
      AllWaiting-Keeping _ _ ps
        (step-Keeping b _ _ (Step.refused actor id confirmation w w' e ps f)) h
  step-AllWaiting s s' (Step.run x w before after) h =
      AllWaiting-Keeping _ _ (before ++ after) (step-Keeping b _ _ (Step.run x w before after))
        (others w.proposals x before after h)

  -- However requests and the two steps of approvals interleave: a proposal that is stored stays
  -- stored with its frozen columns, and if every approval that waits for the lock is an approver's
  -- and has read a row with the frozen columns of the stored one, then so it is afterwards.
  pub steps-Reached :
      (s s' : System H) → Steps b s s' → AllWaiting s.world.proposals s.pending → Reached s s'
  steps-Reached s s' Steps.done h = record { keeping = Keeping-refl s.world.proposals; waiting = h }
  steps-Reached s s' (Steps.then {t = u} x xs) h =
      let r = steps-Reached u s' xs (step-AllWaiting s u x h) in
      record { keeping = Keeping-trans _ _ _ (step-Keeping b s u x) r.keeping; waiting = r.waiting }
