-- ===== src/Service/Life/Proposing.antt =====
-- The three ways to propose and the rows that are stored already
-- (roles/msp_broker/files/broker/service.py).
use msp_fleet_public.Base.{ℕ, String, List, any, ◌==◌, inl, inr, Bool-cases}
use msp_fleet_public.Adapter.{Adapter}
use msp_fleet_public.Broker.{Broker, World, Entry}
use msp_fleet_public.Broker.Actions.{insert_row}
use msp_fleet_public.Broker.Frames.{TableFrame-Frame, Keeps-files, table_rules}
use msp_fleet_public.Exec.Rules.{Keeps}
use msp_fleet_public.Plan.{Target, Step}
use msp_fleet_public.Policy.{Actor}
use msp_fleet_public.Registry.{Risk}
use msp_fleet_public.Service.Life.{Since, Since-frame, expire-Since}
use msp_fleet_public.Service.Propose.{file_proposal, propose}
use msp_fleet_public.Service.ProposePlan.{stage_plan, propose_plan}
use msp_fleet_public.Service.ProposeScript.{freeze, stage_script, propose_script}
use msp_fleet_public.Store.{Table, insert_proposal}
use msp_fleet_public.Store.Moves.{Moves-trans, Moves-append}
use msp_fleet_public.Store.Rows.{Row}
use msp_fleet_public.Value.{Value}

module _ {H : Type 0} {t : Table} where
  insert_row-Since : (r : Row) → Keeps {S = World H} (Since t) (insert_row r)
  unfolding insert_row insert_proposal
  insert_row-Since r = record {
    at = λ w s. elim (Bool-cases (any (λ q. q.proposal_id == r.proposal_id) w.proposals)) [
      | inl h ↦ rw h s
      | inr h ↦
          rw h (record { moves = Moves-trans t w.proposals _ s.moves (Moves-append r w.proposals) })
    ];
  }

module _ {H : Type 0} {t : Table} (b : Broker H) where
  file_proposal-Since : (r : Row) (e : Entry) → Keeps (Since t) (file_proposal b r e)
  unfolding file_proposal
  file_proposal-Since r e = search (table_rules, insert_row-Since, Since-frame)

  pub propose-Since :
      (actor : Actor) (operation ref parameters : Value)
      → Keeps (Since t) (propose b actor operation ref parameters)
  unfolding propose
  propose-Since actor operation ref parameters =
      search (table_rules, expire-Since, file_proposal-Since, Since-frame) depth 12

  freeze-Since : (path : String) (bytes : List ℕ) → Keeps (Since t) (freeze b path bytes)
  unfolding freeze
  freeze-Since path bytes = Keeps-files _ (TableFrame-Frame Since-frame)

  stage_script-Since :
      (actor : Actor) (target : Target) (a : Adapter H) (interpreter : String) (timeout : ℕ)
      (purpose effects : String) (bytes : List ℕ)
      → Keeps (Since t) (stage_script b actor target a interpreter timeout purpose effects bytes)
  unfolding stage_script
  stage_script-Since actor target a interpreter timeout purpose effects bytes =
      search (table_rules, file_proposal-Since, freeze-Since, Since-frame) depth 10

  pub propose_script-Since :
      (actor : Actor) (ref interpreter : Value) (path : String) (purpose : Value) (effects : String)
      (timeout : Value)
      → Keeps (Since t) (propose_script b actor ref interpreter path purpose effects timeout)
  unfolding propose_script
  propose_script-Since actor ref interpreter path purpose effects timeout =
      search (table_rules, expire-Since, stage_script-Since, Since-frame) depth 20

  stage_plan-Since :
      (actor : Actor) (target : Target) (steps : List Step) (risk : Risk) (purpose : String)
      → Keeps (Since t) (stage_plan b actor target steps risk purpose)
  unfolding stage_plan
  stage_plan-Since actor target steps risk purpose =
      search (table_rules, file_proposal-Since, Since-frame) depth 10

  pub propose_plan-Since :
      (actor : Actor) (steps purpose : Value) → Keeps (Since t) (propose_plan b actor steps purpose)
  unfolding propose_plan
  propose_plan-Since actor steps purpose =
      search (table_rules, expire-Since, stage_plan-Since, Since-frame) depth 20
