-- ===== src/Service/Once.antt =====
-- Approvals of decided proposals (roles/msp_broker/files/broker/service.py).
use msp_fleet_public.Base.{String, true, ◌≡◌, ap, some, List, arith, ◌==◌, if◌then◌else◌}
use msp_fleet_public.Broker.{Broker, World}
use msp_fleet_public.Broker.Actions.{expire, known_proposal, require_approve}
use msp_fleet_public.Exec.{◌>>=◌}
use msp_fleet_public.Exec.Rules.{Post}
use msp_fleet_public.Failure.{
  Refusal, Result, ok, err, refused, not_awaiting, unknown_proposal, not_an_approver,
}
use msp_fleet_public.Policy.{Actor}
use msp_fleet_public.Service.Decide.{approve_check, approve}
use msp_fleet_public.Service.Execute.{Answer}
use msp_fleet_public.Service.Life.{Since, Done}
use msp_fleet_public.Service.Life.Deciding.{approve-Done}
use msp_fleet_public.Service.Life.Requests.{serve-get_final}
use msp_fleet_public.Service.Requests.{Request, serve}
use msp_fleet_public.Store.{get, expire_stale, expire_row}
use msp_fleet_public.Store.Lookups.{get-expire_stale}
use msp_fleet_public.Store.Moves.{Moves-refl, is_final}
use msp_fleet_public.Store.Rows.{Row, is_proposed}

module _ {H : Type 0} (b : Broker H) where
  -- Why an approval of a decided proposal is refused.
  abbrev pub why_refused : Actor → Row → Refusal
  why_refused actor p =
      if actor.can_approve
      then (if p.client_id == b.client.client_id then not_awaiting else unknown_proposal)
      else not_an_approver

  -- The row of a decided proposal after `_expire`.
  final-expire_stale :
      (w : World H) (id : String) (p : Row)
      → get w.proposals id ≡ some p
      → is_final p.status ≡ true
      → get (expire_stale (b.clock w.ticks) w.proposals) id ≡ some p
  unfolding expire_row is_proposed is_final
  final-expire_stale w id p found final =
      rw (get-expire_stale (b.clock w.ticks) w.proposals id, found) (ground arith)

  -- An approval of a stored proposal in a final state is refused, for the reason that the caller and
  -- the proposal's client give, and leaves the host alone.
  pub approve_final :
      (actor : Actor) (id confirmation : String) (w : World H) (p : Row)
      → get w.proposals id ≡ some p
      → is_final p.status ≡ true
      → ((approve b actor id confirmation w).0 ≡ err (refused (why_refused actor p)))
        × ((approve b actor id confirmation w).1.host ≡ w.host)
  unfolding approve approve_check require_approve expire known_proposal is_proposed is_final ◌>>=◌
  approve_final actor id confirmation w p found final =
      let seen = final-expire_stale w id p found final in
      (ground (arith, seen), ground (arith, seen))

  returned :
      (id : String) (w : World H) (r : Result Answer × World H) (answer : Answer) (w' : World H)
      → Post (λ _. Done w.proposals id) (Since w.proposals) r
      → r ≡ (ok answer, w')
      → (p : Row) × (get w'.proposals id ≡ some p) × (is_final p.status ≡ true)
  returned id w (ok a, v) answer w' d e =
      let e' = ap (λ (x : Result Answer × World H). x.1) e in (d.row, rw (← e') d.found, d.final)
  returned id w (err x, v) answer w' d e = cc

  -- Once an approval has returned, whatever the outcome, every later approval of that proposal is
  -- refused and leaves the host alone, whatever requests were handled in between.
  pub approve_once :
      (first second : Actor) (id confirmation again : String) (answer : Answer) (w w' : World H)
      (rs : List (Actor × Request))
      → approve b first id confirmation w ≡ (ok answer, w')
      → (p : Row) × ((approve b second id again (serve b rs w')).0
          ≡ err (refused (why_refused second p)))
        × ((approve b second id again (serve b rs w')).1.host ≡ (serve b rs w').host)
  approve_once first second id confirmation again answer w w' rs e =
      let start : Since w.proposals w = record { moves = Moves-refl w.proposals } in
      let (p, found, final) =
        returned id w _ answer w' ((approve-Done b id first confirmation).at w start) e in
      let (why, host) =
        approve_final second id again (serve b rs w') p (serve-get_final b rs w' id p found final)
          final in
      (p, why, host)
