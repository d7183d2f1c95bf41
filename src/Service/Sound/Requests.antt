-- ===== src/Service/Sound/Requests.antt =====
-- Deciding, and requests of every kind, and the frozen columns of the stored proposals
-- (roles/msp_broker/files/broker/service.py).
use msp_fleet_public.Base.{String, refl, Option, none, some, List, [], ◌∷◌}
use msp_fleet_public.Broker.{Broker, World}
use msp_fleet_public.Broker.Frames.{table_rules, frame_rules}
use msp_fleet_public.Exec.Rules.{Post, Keeps, Triple-bind}
use msp_fleet_public.Failure.{Result, ok, err}
use msp_fleet_public.Policy.{Actor}
use msp_fleet_public.Service.Decide.{approve, finish_reject, reject, finish_cancel, cancel}
use msp_fleet_public.Service.Execute.{close_row}
use msp_fleet_public.Service.Frozen.{close_row-Keeps, approve_check-Keeps, approve_run-Keeps}
use msp_fleet_public.Service.Receipts.{write_receipt-Keeps}
use msp_fleet_public.Service.Requests.{
  Request, list_proposals, show_proposal, inventory_read, target_read, proposal_read, adapter_read,
  read_part, handle, serve,
}
use msp_fleet_public.Service.Sound.Proposing.{
  propose-Sound, propose_script-Sound, propose_plan-Sound,
}
use msp_fleet_public.Service.Sound.{Sound, Sound-frame, expire-Sound, write_row-Sound}
use msp_fleet_public.Store.Moves.{frozen}
use msp_fleet_public.Store.Rows.{Status}
use msp_fleet_public.Value.{Value}

always : {S A : Type 0} (P : S → Type 0) (r : Result A × S) → Post (λ _. P) P r → P r.1
always P (ok a, s) p = p
always P (err e, s) p = p

module _ {H : Type 0} (b : Broker H) where
  ruleset sound_rules = (table_rules, Sound-frame, expire-Sound)

  close_row-Sound :
      (id : String) (status : Status) (why : String) → Keeps (Sound b) (close_row b id status why)
  close_row-Sound = close_row-Keeps b (Sound-frame b) (expire-Sound b) (write_row-Sound b)

  pub approve-Sound :
      (actor : Actor) (id confirmation : String) → Keeps (Sound b) (approve b actor id confirmation)
  unfolding approve
  approve-Sound actor id confirmation =
      Triple-bind _ _
        (approve_check-Keeps b (Sound-frame b) (expire-Sound b) (write_row-Sound b) actor id
          confirmation)
        (approve_run-Keeps b (Sound-frame b) (expire-Sound b) (write_row-Sound b) actor id)

  pub reject-Sound :
      (actor : Actor) (id reason : String) → Keeps (Sound b) (reject b actor id reason)
  unfolding reject finish_reject frozen
  reject-Sound actor id reason =
      search (sound_rules, write_row-Sound, write_receipt-Keeps, refl) depth 14

  pub cancel-Sound : (actor : Actor) (id : String) → Keeps (Sound b) (cancel b actor id)
  unfolding cancel finish_cancel
  cancel-Sound actor id = search (sound_rules, close_row-Sound, write_receipt-Keeps) depth 14

  read_part-Sound :
      (part : Option (String × String)) (args : Value) → Keeps (Sound b) (read_part b part args)
  read_part-Sound none args = search sound_rules
  read_part-Sound (some (name, sub)) args = search sound_rules depth 12

  adapter_read-Sound :
      (actor : Actor) (verb : String) (args : Value)
      → Keeps (Sound b) (adapter_read b actor verb args)
  unfolding adapter_read
  adapter_read-Sound actor verb args = search (sound_rules, read_part-Sound)

  handle-Sound : (actor : Actor) (r : Request) → Keeps (Sound b) (handle b actor r)
  unfolding handle list_proposals show_proposal inventory_read target_read proposal_read
      adapter_read
  handle-Sound actor (Request.approve id confirmation) = search (frame_rules, approve-Sound)
  handle-Sound actor (Request.reject id reason) = search (frame_rules, reject-Sound)
  handle-Sound actor (Request.cancel id) = search (frame_rules, cancel-Sound)
  handle-Sound actor (Request.propose o ref ps) = search (frame_rules, propose-Sound)
  handle-Sound actor (Request.propose_script ref i f p e n) =
      search (frame_rules, propose_script-Sound)
  handle-Sound actor (Request.propose_plan steps purpose) = search (frame_rules, propose_plan-Sound)
  handle-Sound actor (Request.read_adapter verb args) = adapter_read-Sound actor verb args
  handle-Sound actor _ = search (frame_rules, expire-Sound, Sound-frame) depth 8

  -- Every request, whoever sends it and whether it is refused or not, and every sequence of requests
  -- keeps the stored proposals sound: they are of this client and site, their hash is that of their
  -- plan, their plan names their target and operation, their life is the policy's, and
  -- neither they nor the steps of their plan are FORBIDDEN.
  pub serve-Sound : (rs : List (Actor × Request)) (w : World H) → Sound b w → Sound b (serve b rs w)
  unfolding serve
  serve-Sound [] w s = s
  serve-Sound ((actor, r) ∷ rs) w s =
      serve-Sound rs _ (always (Sound b) (handle b actor r w) ((handle-Sound actor r).at w s))
