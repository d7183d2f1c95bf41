-- ===== src/Service/Race/Hosts.antt =====
-- Whose steps can change the managed host, however requests and approvals interleave
-- (roles/msp_broker/files/broker/service.py).
use msp_fleet_public.Base.{
  String, Bool, true, not, ◌&&◌, ◌≡◌, ◌≢◌, refl, sym, ◌∙◌, List, [], ◌∷◌, ◌++◌, arith, all, subst,
}
use msp_fleet_public.Broker.{Broker, World}
use msp_fleet_public.Failure.{Result}
use msp_fleet_public.Policy.{Actor}
use msp_fleet_public.Service.Decide.{approve_check}
use msp_fleet_public.Service.Hosts.{AllReadsAreFree, kept, host-handle_refused}
use msp_fleet_public.Service.Hosts.Authorised.{approve_check-Passed, approve_check-HostIs}
use msp_fleet_public.Service.Race.{Pending, System, Step, Steps}
use msp_fleet_public.Store.Rows.{Row}

module _ {H : Type 0} (b : Broker H) where
  -- The callers of requests and of the checks of approvals; what runs under the lock has no new one.
  abbrev pub step_callers : {s s' : System H} → Step b s s' → List Actor
  step_callers (Step.request actor r w ps) = actor ∷ []
  step_callers (Step.checked actor id confirmation w w' p ps e) = actor ∷ []
  step_callers (Step.refused actor id confirmation w w' e ps h) = actor ∷ []
  step_callers (Step.run x w before after) = []

  abbrev pub callers : {s s' : System H} → Steps b s s' → List Actor
  callers Steps.done = []
  callers (Steps.then x xs) = step_callers x ++ callers xs

  abbrev pub may_not_approve : Actor → Bool
  may_not_approve actor = not actor.can_approve

  checked_host :
      (actor : Actor) (id confirmation : String) (w : World H) (x : Result Row × World H)
      → approve_check b actor id confirmation w ≡ x
      → x.1.host ≡ w.host
  checked_host actor id confirmation w x e =
      subst (λ (y : Result Row × World H). y.1.host ≡ w.host) e
        (kept w.host _
          ((approve_check-HostIs b actor id confirmation).at w (record { same = refl })))

  not_empty : (before after : List Pending) (x : Pending) → before ++ x ∷ after ≢ []
  not_empty [] after x e = cc
  not_empty (y ∷ before) after x e = cc

  step_host :
      (free : AllReadsAreFree b) (s s' : System H) (x : Step b s s')
      → all may_not_approve (step_callers x) ≡ true
      → s.pending ≡ []
      → (s'.world.host ≡ s.world.host) × (s'.pending ≡ [])
  step_host free s s' (Step.request actor r w ps) h n =
      (host-handle_refused b free actor r w (ground arith), n)
  step_host free s s' (Step.checked actor id confirmation w w' p ps e) h n =
      let passed = (approve_check-Passed b actor id confirmation w w' p e).0 in
      let may : actor.can_approve ≡ true = passed.approver in absurd (ground (arith, may))
  step_host free s s' (Step.refused actor id confirmation w w' e ps h') h n =
      (checked_host actor id confirmation w _ h', n)
  step_host free s s' (Step.run x w before after) h n = absurd (not_empty before after x n)

  all-append : (p : Actor → Bool) (l m : List Actor) → all p (l ++ m) ≡ (all p l && all p m)
  all-append p [] m = refl
  all-append p (x ∷ l) m = ground (arith, all-append p l m)

  -- However requests and the two steps of approvals interleave, in any number: if no approval waits at
  -- the start and no caller of a request or of the checks of an approval may approve, then the managed
  -- host stays as it is, as far as the prechecks and reads of the adapters only read.
  pub host-steps_without_approvers :
      (free : AllReadsAreFree b) (s s' : System H) (xs : Steps b s s')
      → all may_not_approve (callers xs) ≡ true
      → s.pending ≡ []
      → s'.world.host ≡ s.world.host
  host-steps_without_approvers free s s' Steps.done h n = refl
  host-steps_without_approvers free s s' (Steps.then {t = t} x xs) h n =
      let parts : all may_not_approve (step_callers x) && all may_not_approve (callers xs) ≡ true =
        sym (all-append may_not_approve (step_callers x) (callers xs)) ∙ h in
      let (same, none_waits) = step_host free s t x (ground (arith, parts)) n in
      host-steps_without_approvers free t s' xs (ground (arith, parts)) none_waits ∙ same
