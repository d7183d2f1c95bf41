-- ===== src/Service/Race.antt =====
-- Approvals that overlap (roles/msp_broker/files/broker/service.py; every connection has a thread in
-- server.py there). An approval is two steps, its checks and what follows from the lock to its release,
-- and other requests and approvals come between them. The lock is held during the second step, which
-- is taken as one.
pub mod Waiting
pub mod Hosts
use msp_fleet_public.Base.{
  String, true, ◌≡◌, refl, sym, ap, ◌∙◌, none, some, List, [], ◌∷◌, ◌++◌, ◌==◌, subst, Bool-cases,
  inl, inr,
}
use msp_fleet_public.Broker.{Broker, World}
use msp_fleet_public.Broker.Actions.{expire, write_row, now}
use msp_fleet_public.Broker.Frames.{TableFrame}
use msp_fleet_public.Exec.{◌>>=◌}
use msp_fleet_public.Exec.Rules.{Post, Keeps}
use msp_fleet_public.Failure.{Fault, Result, ok, err}
use msp_fleet_public.Policy.{Actor}
use msp_fleet_public.Service.Decide.{approve_check, approve_run}
use msp_fleet_public.Service.Frozen.{approve_check-Keeps, approve_run-Keeps}
use msp_fleet_public.Service.Life.Requests.{handle-Moves}
use msp_fleet_public.Service.Requests.{Request, handle}
use msp_fleet_public.Store.{Table, get, update, expire_stale}
use msp_fleet_public.Store.Lookups.{get-update, get-expire_stale}
use msp_fleet_public.Store.Moves.{Moves, Follows, Moves-expire_stale, frozen}
use msp_fleet_public.Store.Rows.{Row}

-- An approval whose checks have passed: the caller, the identifier and the row that was read.
pub record Pending : Type 0 where
  pub actor : Actor
  pub id : String
  pub row : Row

-- The world and the approvals between their two steps.
pub record System (H : Type 0) : Type 0 where
  pub world : World H
  pub pending : List Pending

module _ {H : Type 0} (b : Broker H) where
  pub data Step : System H → System H → Type 0 where
    request :
        (actor : Actor) (r : Request) (w : World H) (ps : List Pending)
        → Step
            (record { world = w; pending = ps })
            (record { world = (handle b actor r w).1; pending = ps })
    checked :
        (actor : Actor) (id confirmation : String) (w w' : World H) (p : Row) (ps : List Pending)
        → approve_check b actor id confirmation w ≡ (ok p, w')
        → Step
            (record { world = w; pending = ps })
            (record { world = w'; pending = record { actor = actor; id = id; row = p } ∷ ps })
    refused :
        (actor : Actor) (id confirmation : String) (w w' : World H) (e : Fault) (ps : List Pending)
        → approve_check b actor id confirmation w ≡ (err e, w')
        → Step (record { world = w; pending = ps }) (record { world = w'; pending = ps })
    run :
        (x : Pending) (w : World H) (before after : List Pending)
        → Step
            (record { world = w; pending = before ++ x ∷ after })
            (record { world = (approve_run b x.actor x.id x.row w).1; pending = before ++ after })

  pub data Steps : System H → System H → Type 0 where
    done : {s : System H} → Steps s s
    then : {s t u : System H} → Step s t → Steps t u → Steps s u

-- The rows of the table are still stored with their frozen columns.
pub record Keeping (t u : Table) : Type 0 where
  pub at :
      (id : String) (r : Row)
      → get t id ≡ some r
      → (r' : Row) × (get u id ≡ some r') × (frozen r' ≡ frozen r)

Follows-frozen : (r r' : Row) → Follows r r' → frozen r' ≡ frozen r
Follows-frozen r r' (Follows.same e) = ap frozen e
Follows-frozen r r' (Follows.next e l) = e

Moves-Keeping : (t u : Table) → Moves t u → Keeping t u
Moves-Keeping t u m = record {
  at = λ id r h. let (r', found, f) = m.at id r h in (r', found, Follows-frozen r r' f);
}

pub Keeping-trans : (t u v : Table) → Keeping t u → Keeping u v → Keeping t v
Keeping-trans t u v k l = record {
  at = λ id r h.
      let (r', found, e) = k.at id r h in
      let (r'', found', e') = l.at id r' found in (r'', found', e' ∙ e);
}

Keeping-update :
    (id : String) (f : Row → Row) (t : Table)
    → ((r : Row) → frozen (f r) ≡ frozen r)
    → Keeping t (update id f t)
unfolding frozen
Keeping-update id f t keeps = record {
  at = λ j r h.
      let keys : (x : Row) → (f x).proposal_id ≡ x.proposal_id =
        λ x. ap (λ (y : Row). y.proposal_id) (keeps x) in
      elim (Bool-cases (id == j)) [
        | inl e ↦ (f r, rw (get-update id f t j keys, e, h) refl, keeps r)
        | inr e ↦ (r, rw (get-update id f t j keys, e, h) refl, refl)
      ];
}

module _ {H : Type 0} (t : Table) where
  record Since (w : World H) : Type 0 where
    pub keeping : Keeping t w.proposals

  frame : TableFrame Since
  frame = record { moved = λ w v e s. record { keeping = rw e s.keeping } }

  expires : (b : Broker H) → Keeps Since (expire b)
  unfolding expire now ◌>>=◌
  expires b = record {
    at = λ w s. record {
      keeping =
          Keeping-trans _ _ _ s.keeping
            (Moves-Keeping _ _ (Moves-expire_stale (b.clock w.ticks) w.proposals));
    };
  }

  writes :
      (id : String) (f : Row → Row)
      → ((r : Row) → frozen (f r) ≡ frozen r)
      → Keeps Since (write_row id f)
  unfolding write_row
  writes id f keeps = record {
    at = λ w s. record {
      keeping = Keeping-trans _ _ _ s.keeping (Keeping-update id f w.proposals keeps);
    };
  }

  left_by :
      {A : Type 0} (r : Result A × World H) → Post (λ _. Since) Since r → Keeping t r.1.proposals
  left_by (ok a, w) s = s.keeping
  left_by (err e, w) s = s.keeping

pub Keeping-refl : (t : Table) → Keeping t t
Keeping-refl t = record { at = λ id r h. (r, h, refl) }

module _ {H : Type 0} (b : Broker H) where
  pub checked-Keeping :
      (actor : Actor) (id confirmation : String) (w : World H) (r : Result Row × World H)
      → approve_check b actor id confirmation w ≡ r
      → Keeping w.proposals r.1.proposals
  checked-Keeping actor id confirmation w r e =
      subst (λ (x : Result Row × World H). Keeping w.proposals x.1.proposals) e
        (left_by w.proposals (approve_check b actor id confirmation w) (
          (approve_check-Keeps b (frame w.proposals) (expires w.proposals b) (writes w.proposals)
              actor id confirmation).at
            w (record { keeping = Keeping-refl w.proposals })))

  pub run-Keeping :
      (x : Pending) (w : World H)
      → Keeping w.proposals (approve_run b x.actor x.id x.row w).1.proposals
  run-Keeping x w = left_by w.proposals (approve_run b x.actor x.id x.row w) (
      (approve_run-Keeps b (frame w.proposals) (expires w.proposals b) (writes w.proposals) x.actor
          x.id x.row).at
        w (record { keeping = Keeping-refl w.proposals }))

  pub step-Keeping : (s s' : System H) → Step b s s' → Keeping s.world.proposals s'.world.proposals
  step-Keeping s s' (Step.request actor r w ps) = Moves-Keeping _ _ (handle-Moves b actor r w)
  step-Keeping s s' (Step.checked actor id confirmation w w' p ps e) =
      checked-Keeping actor id confirmation w _ e
  step-Keeping s s' (Step.refused actor id confirmation w w' e ps h) =
      checked-Keeping actor id confirmation w _ h
  step-Keeping s s' (Step.run x w before after) = run-Keeping x w
