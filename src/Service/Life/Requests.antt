-- ===== src/Service/Life/Requests.antt =====
-- What every request and every sequence of requests keeps of the proposals
-- (roles/msp_broker/files/broker/service.py).
use msp_fleet_public.Base.{String, true, ◌≡◌, ap, List, [], ◌∷◌, Option, none, some}
use msp_fleet_public.Broker.{Broker, World}
use msp_fleet_public.Broker.Frames.{frame_rules, table_rules}
use msp_fleet_public.Exec.Rules.{Post, Keeps}
use msp_fleet_public.Policy.{Actor}
use msp_fleet_public.Failure.{Result, ok, err}
use msp_fleet_public.Service.Life.{Since, expire-Since, Since-frame}
use msp_fleet_public.Service.Life.Deciding.{approve-Since, reject-Since, cancel-Since}
use msp_fleet_public.Service.Life.Proposing.{
  propose-Since, propose_script-Since, propose_plan-Since,
}
use msp_fleet_public.Service.Requests.{
  Request, list_proposals, show_proposal, inventory_read, target_read, proposal_read, adapter_read,
  read_part, handle, serve,
}
use msp_fleet_public.Store.{Table, get}
use msp_fleet_public.Store.Moves.{Moves, Moves-refl, Moves-trans, Follows-final, is_final}
use msp_fleet_public.Store.Rows.{Row}
use msp_fleet_public.Value.{Value}

module _ {H : Type 0} {t : Table} (b : Broker H) where
  read_part-Since :
      (part : Option (String × String)) (args : Value) → Keeps (Since t) (read_part b part args)
  read_part-Since none args = search table_rules
  read_part-Since (some (name, sub)) args = search (table_rules, Since-frame) depth 12

  adapter_read-Since :
      (actor : Actor) (verb : String) (args : Value)
      → Keeps (Since t) (adapter_read b actor verb args)
  unfolding adapter_read
  adapter_read-Since actor verb args = search (table_rules, read_part-Since, expire-Since)

  handle-Since : (actor : Actor) (r : Request) → Keeps (Since t) (handle b actor r)
  unfolding handle list_proposals show_proposal inventory_read target_read proposal_read
      adapter_read
  handle-Since actor (Request.approve id confirmation) = search (frame_rules, approve-Since)
  handle-Since actor (Request.reject id reason) = search (frame_rules, reject-Since)
  handle-Since actor (Request.cancel id) = search (frame_rules, cancel-Since)
  handle-Since actor (Request.propose o ref ps) = search (frame_rules, propose-Since)
  handle-Since actor (Request.propose_script ref i f p e n) =
      search (frame_rules, propose_script-Since)
  handle-Since actor (Request.propose_plan steps purpose) = search (frame_rules, propose_plan-Since)
  handle-Since actor (Request.read_adapter verb args) = adapter_read-Since actor verb args
  handle-Since actor _ = search (frame_rules, expire-Since, Since-frame) depth 8

after :
    {H A : Type 0} (t : Table) (r : Result A × World H)
    → Post (λ _. Since t) (Since t) r
    → Moves t r.1.proposals
after t (ok a, w) s = s.moves
after t (err e, w) s = s.moves

module _ {H : Type 0} (b : Broker H) where
  -- One request, whatever it is, whoever sends it and whether it is refused or not: every stored
  -- proposal is still stored, its frozen columns (plan, hash, target, risk, confirmation, times) are
  -- what they were, and it is unchanged or its state has gone forward.
  pub handle-Moves :
      (actor : Actor) (r : Request) (w : World H)
      → Moves w.proposals (handle b actor r w).1.proposals
  handle-Moves actor r w =
      after _ _ ((handle-Since b actor r).at w (record { moves = Moves-refl w.proposals }))

  -- The same of any sequence of requests: every stored proposal stays stored with its frozen columns,
  -- and is unchanged or its state has gone forward.
  pub serve-Moves :
      (rs : List (Actor × Request)) (w : World H) → Moves w.proposals (serve b rs w).proposals
  unfolding serve
  serve-Moves [] w = Moves-refl w.proposals
  serve-Moves ((actor, r) ∷ rs) w =
      Moves-trans w.proposals _ _ (handle-Moves actor r w) (serve-Moves rs (handle b actor r w).1)

  -- A proposal in a final state keeps its whole row through every later sequence of requests.
  pub serve-get_final :
      (rs : List (Actor × Request)) (w : World H) (id : String) (p : Row)
      → get w.proposals id ≡ some p
      → is_final p.status ≡ true
      → get (serve b rs w).proposals id ≡ some p
  serve-get_final rs w id p found final =
      let (r, h, f) = (serve-Moves rs w).at id p found in rw h (ap some (Follows-final p r f final))
