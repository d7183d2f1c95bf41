-- ===== src/Tests/Stored.antt =====
-- The theorems on stored proposals, callers and plans, at concrete inputs.
use msp_fleet_public.Base.{String, true, ◌≡◌, ◌↔◌, refl, none, some, pos, List, [], ◌∷◌}
use msp_fleet_public.Adapter.Mock.{MockHost}
use msp_fleet_public.Adapter.Proxmox
use msp_fleet_public.Adapter.Proxmox.Plans.{StartsOnProxmox, execute_plan-ended_at_first}
use msp_fleet_public.Broker.{Broker, World, held}
use msp_fleet_public.Failure.{ok, err, refused, adapter_error, unknown_proposal}
use msp_fleet_public.Kinds.{valid, codes, unit, pool}
use msp_fleet_public.Kinds.Newline.{IsName, IsUnitChar, IsPoolChar, valid_names_exact}
use msp_fleet_public.Plan.{Step, Target, Declared, text}
use msp_fleet_public.Policy.{Actor, Group, actor_for}
use msp_fleet_public.Policy.Exact.{actor_for_exact}
use msp_fleet_public.Registry.{is_forbidden, get_operation, get_operation_value, registry, low}
use msp_fleet_public.Samples.{
  platform, broker, start, staged, approver, reader, mock_target, row_of, propose_echo,
  propose_halt,
}
use msp_fleet_public.Samples.Scripts.{plan_step}
use msp_fleet_public.Service.Hosts.Authorised.{expired_world}
use msp_fleet_public.Service.Isolation.{handle_foreign}
use msp_fleet_public.Service.ProposePlan.{steps_plan}
use msp_fleet_public.Adapter.Remote
use msp_fleet_public.Adapter.Remote.{Runner}
use msp_fleet_public.Exec.{◌>>=◌}
use msp_fleet_public.Service.Runs.{execute_plan}
use msp_fleet_public.Service.Requests.{Request, handle, serve}
use msp_fleet_public.Service.Sound.{Sound}
use msp_fleet_public.Service.Sound.Requests.{serve-Sound}
use msp_fleet_public.Service.Steps.{freeze_steps}
use msp_fleet_public.Service.Steps.Covered.{IsRisk, freeze_steps-IsRisk}
use msp_fleet_public.Service.Targets.{validated_operation}
use msp_fleet_public.Params.{validate_params}
use msp_fleet_public.Store.{inventory_get, get}
use msp_fleet_public.Store.Rows.{Row, Status}
use msp_fleet_public.Value.{Value}

abbrev several : List (Actor × Request)
several = (reader, propose_echo) ∷ (reader, propose_halt) ∷ (approver, Request.approve "0" "") ∷ []

serve-Sound_example : Sound broker (serve broker several start)
serve-Sound_example = serve-Sound broker several start (record { rows = tt })

abbrev steps : List Value
steps = plan_step "mock.echo" ∷ []

abbrev frozen_step : Step
frozen_step = record {
  adapter = "mock";
  operation = "mock.echo";
  target_id = "mock/one";
  target_name = "one";
  target_external_id = "one";
  parameters = ("message", Value.str "hello") ∷ [];
  executor = "echo";
}

freeze_steps-IsRisk_example : IsRisk low (frozen_step ∷ []) low
unfolding freeze_steps validated_operation get_operation_value registry is_forbidden inventory_get
    validate_params valid
freeze_steps-IsRisk_example =
    freeze_steps-IsRisk broker start.inventory steps low low (frozen_step ∷ []) refl

abbrev foreign : World MockHost
foreign = record staged {
  proposals = record (row_of Status.proposed) { client_id = "client-002" } ∷ [];
}

handle_foreign_example :
    handle broker approver (Request.approve "0" "") foreign
    ≡ (err (refused unknown_proposal), expired_world broker foreign)
unfolding get
handle_foreign_example =
    handle_foreign broker "0" (record (row_of Status.proposed) { client_id = "client-002" })
      approver (Request.approve "0" "") foreign refl refl refl refl

abbrev group_list : List Group
group_list = record { gr_gid = 50; gr_name = "msp-approvers"; gr_mem = "ann" ∷ [] } ∷ []

actor_for_exact_example :
    actor_for 1000 1000 broker.policy (λ uid. some "ann") group_list
    ≡ ok (record { uid = 1000; name = "ann"; can_read = true; can_approve = true })
actor_for_exact_example =
    actor_for_exact 1000 1000 broker.policy (λ uid. some "ann") group_list "ann" refl

valid_names_exact_example :
    ((valid unit (Value.str "tank\n") ≡ true)
      ↔ ((s : String) × (Value.str "tank\n" ≡ Value.str s) × IsName IsUnitChar (codes s)))
    × ((valid pool (Value.str "tank\n") ≡ true)
        ↔ ((s : String) × (Value.str "tank\n" ≡ Value.str s) × IsName IsPoolChar (codes s)))
valid_names_exact_example = valid_names_exact (Value.str "tank\n")

abbrev answers : Runner (Unit {0})
answers argv input timeout h = (ok (pos 0, "", ""), h)

abbrev pve : Broker (Unit {0})
pve = record {
  platform = platform;
  client = broker.client;
  policy = broker.policy;
  adapters = ("proxmox", Proxmox.proxmox platform answers (λ h. "now")) ∷ [];
  clock = λ n. n;
  uuid = λ n. "0";
  proposals_dir = "/var/lib/msp/proposals";
}

abbrev guest : Target
guest = record mock_target {
  id = "proxmox/100";
  adapter = "proxmox";
  kind = "vm";
  external_id = "100";
}

abbrev vm_step : Step
vm_step = record {
  adapter = "proxmox";
  operation = "vm.start";
  target_id = "proxmox/100";
  target_name = "one";
  target_external_id = "100";
  parameters = [];
  executor = "vm_start";
}

abbrev intent : Declared
intent = record { purpose = "demo"; effects = none }

abbrev vm_row : Row
vm_row = record (row_of Status.executing) { plan = steps_plan pve guest (vm_step ∷ []) intent }

abbrev pve_world : World (Unit {0})
pve_world = record {
  proposals = vm_row ∷ [];
  receipts = [];
  inventory = guest ∷ [];
  files = λ path. none;
  scratch = λ path. none;
  lock = held;
  log = [];
  host = tt;
  ticks = 0;
  ids = 0;
}

vm_ready : StartsOnProxmox pve platform answers (λ h. "now") vm_row vm_step guest pve_world
unfolding get_operation registry inventory_get
vm_ready = record {
  first = guest;
  later = [];
  declared = intent;
  planned = refl;
  on_proxmox = refl;
  registered = refl;
  op = record {
    name = "vm.start";
    adapter = "proxmox";
    risk = low;
    target_kinds = "vm" ∷ [];
    params = [];
    executor = "vm_start";
    confirm = "";
    description = "Start a virtual machine.";
  };
  known = refl;
  named = refl;
  handled = refl;
  there = refl;
  own = refl;
}

execute_plan-ended_at_first_example :
    execute_plan pve vm_row pve_world
    ≡ (err (adapter_error "operation is not implemented: vm.start"), pve_world)
unfolding Proxmox.precheck ◌>>=◌ Remote.run Remote.parse_status
execute_plan-ended_at_first_example =
    execute_plan-ended_at_first pve platform answers (λ h. "now") vm_row vm_step guest pve_world
      vm_ready (ok (("vmid", text "100") ∷ ("status", text "unknown") ∷ [])) tt refl
