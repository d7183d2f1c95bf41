-- ===== src/Service/Requests.antt =====
-- The reading methods of `BrokerService` (roles/msp_broker/files/broker/service.py), and a request as
-- `dispatch` of server.py there passes it to a method. A request that is refused leaves the world
-- that the method left; `serve` handles one request after the other.
use msp_fleet_public.Base.{
  ℕ, ℤ, String, false, not, Option, none, some, List, [], ◌∷◌, map, ◌==◌, if◌then◌else◌,
}
use msp_fleet_public.Broker.{Broker, World}
use msp_fleet_public.Broker.Actions.{
  now, expire, known_proposal, require_read, adapter, on_host, except_adapter_error,
}
use msp_fleet_public.Exec.{Exec, pure, raise, lift, gets, refuse_if, ◌>>=◌, ◌>>◌}
use msp_fleet_public.Failure.{refused, unknown_verb, from_adapter, adapter_disabled}
use msp_fleet_public.Plan.{Target}
use msp_fleet_public.Policy.{Actor, is_enabled}
use msp_fleet_public.Service.Decide
use msp_fleet_public.Service.Execute.{Answer}
use msp_fleet_public.Service.Propose
use msp_fleet_public.Service.ProposePlan
use msp_fleet_public.Service.ProposeScript
use msp_fleet_public.Service.Targets.{resolve_text}
use msp_fleet_public.Service.Views.{Summary, summary, Public, public_view}
use msp_fleet_public.Store.Listing.{list_recent, inventory_list}
use msp_fleet_public.Store.Rows.{Status}
use msp_fleet_public.Text.{partition_at}
use msp_fleet_public.Value.{Value}

pub data Request : Type 0 where
  propose : Value → Value → Value → Request
  propose_script : Value → Value → String → Value → String → Value → Request
  propose_plan : Value → Value → Request
  approve : String → String → Request
  reject : String → String → Request
  cancel : String → Request
  show : String → Request
  status : String → Request
  list : ℤ → Request
  read_inventory : Request
  read_target : String → Request
  read_proposal : String → Request
  read_adapter : String → Value → Request

-- What the methods return; the reads of the broker's own state carry the time of observation.
pub data Reply : Type 0 where
  summarised : Summary → Reply
  answered : Answer → Reply
  decided : String × Status → Reply
  shown : Public → Reply
  listed : List Summary → Reply
  targets : ℕ → List Target → Reply
  target : ℕ → Target → Reply
  proposal : ℕ → Public → Reply
  observed : Value → Reply

module _ {H : Type 0} (b : Broker H) where
  unfoldable pub list_proposals : Actor → ℤ → Exec (World H) (List Summary)
  list_proposals actor limit = do
    require_read actor
    expire b
    rows ← gets (λ w. list_recent limit w.proposals)
    pure (map (λ r. summary r false) rows)

  unfoldable pub show_proposal : Actor → String → Exec (World H) Public
  show_proposal actor id = do
    require_read actor
    expire b
    p ← known_proposal b id
    pure (public_view b.platform p)

  unfoldable pub own_targets : List Target → List Target
  own_targets [] = []
  own_targets (t ∷ ts) =
      if t.client_id == b.client.client_id then t ∷ own_targets ts else own_targets ts

  -- `read` of "inventory"
  unfoldable pub inventory_read : Actor → Exec (World H) Reply
  unfolding own_targets
  inventory_read actor = do
    require_read actor
    expire b
    t ← now b
    ts ← gets (λ w. own_targets (inventory_list w.inventory))
    pure (targets t ts)

  -- `read` of "target"
  unfoldable pub target_read : Actor → String → Exec (World H) Reply
  target_read actor ref = do
    require_read actor
    expire b
    inventory ← gets (λ w. w.inventory)
    found ← lift (resolve_text b inventory ref)
    t ← now b
    pure (target t found)

  -- `read` of "proposal"
  unfoldable pub proposal_read : Actor → String → Exec (World H) Reply
  proposal_read actor id = do
    require_read actor
    expire b
    p ← known_proposal b id
    t ← now b
    pure (proposal t (public_view b.platform p))

  -- the call of an adapter's `read`
  abbrev pub ask_adapter : String → String → Value → Exec (World H) Reply
  ask_adapter name sub args =
      except_adapter_error
        (do
          a ← adapter b name
          inventory ← gets (λ w. w.inventory)
          answer ← on_host (a.read inventory sub args)
          pure (observed answer))
        λ e. raise (refused (from_adapter e))

  abbrev pub read_part : Option (String × String) → Value → Exec (World H) Reply
  read_part none args = raise (refused unknown_verb)
  read_part (some (name, sub)) args =
      refuse_if (not (is_enabled b.policy name)) (adapter_disabled name)
      >> ask_adapter name sub args

  -- `read` of a verb other than these three: what an adapter reads, or an unknown verb
  unfoldable pub adapter_read : Actor → String → Value → Exec (World H) Reply
  adapter_read actor verb args = do
    require_read actor
    expire b
    read_part (partition_at b'.' verb) args

  unfoldable pub handle : Actor → Request → Exec (World H) Reply
  handle actor (Request.propose o ref ps) =
      Propose.propose b actor o ref ps >>= λ s. pure (summarised s)
  handle actor (Request.propose_script ref i file purpose effects timeout) =
      ProposeScript.propose_script b actor ref i file purpose effects timeout >>= λ s.
      pure (summarised s)
  handle actor (Request.propose_plan steps purpose) =
      ProposePlan.propose_plan b actor steps purpose >>= λ s. pure (summarised s)
  handle actor (Request.approve id confirmation) =
      Decide.approve b actor id confirmation >>= λ a. pure (answered a)
  handle actor (Request.reject id reason) =
      Decide.reject b actor id reason >>= λ d. pure (decided d)
  handle actor (Request.cancel id) = Decide.cancel b actor id >>= λ d. pure (decided d)
  handle actor (Request.show id) = show_proposal actor id >>= λ p. pure (shown p)
  handle actor (Request.status id) = show_proposal actor id >>= λ p. pure (shown p)
  handle actor (Request.list limit) = list_proposals actor limit >>= λ l. pure (listed l)
  handle actor Request.read_inventory = inventory_read actor
  handle actor (Request.read_target ref) = target_read actor ref
  handle actor (Request.read_proposal id) = proposal_read actor id
  handle actor (Request.read_adapter verb args) = adapter_read actor verb args

  -- Requests in the order in which they are handled, each with its caller.
  unfoldable pub serve : List (Actor × Request) → World H → World H
  serve [] w = w
  serve ((actor, r) ∷ rs) w = serve rs (handle actor r w).1
