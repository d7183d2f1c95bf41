-- ===== src/Registry.antt =====
-- The operation registry of roles/msp_broker/files/broker/model.py: `RISK_ORDER`, `Operation`,
-- `REGISTRY`, `get_operation` and `confirmation_phrase`.
pub mod Consistent
use Prim.Native.String
use text.Mathlib.Text.{starts_with}
use msp_fleet_public.Base.{
  ℕ, zero, suc, String, Bool, true, false, Option, none, some, List, [], ◌∷◌, ◌==◌, ◌<>◌,
  if◌then◌else◌,
}
use msp_fleet_public.Failure.{Result, ok, err, crash}
use msp_fleet_public.Kinds.{Kind, seconds, message, unit, pool}
use msp_fleet_public.Value.{Value, str, arr, obj, lookup}

pub data Risk : Type 0 where
  low disruptive high forbidden : Risk

-- `RISK_ORDER`
unfoldable pub risk_order : Risk → ℕ
risk_order low = 0
risk_order disruptive = 1
risk_order high = 2
risk_order forbidden = 3

unfoldable pub is_forbidden : Risk → Bool
is_forbidden forbidden = true
is_forbidden _ = false

unfoldable pub is_high : Risk → Bool
is_high high = true
is_high _ = false

pub record Operation : Type 0 where
  pub name : String
  pub adapter : String
  pub risk : Risk
  pub target_kinds : List String
  pub params : List (String × Kind)
  pub executor : String
  pub confirm : String
  pub description : String

-- `_op`, which also keys the entry by its name
abbrev op :
    String
    → String
    → Risk
    → String
    → List (String × Kind)
    → String
    → String
    → String
    → String × Operation
op name adapter risk kind params executor confirm description = (
  name,
  record {
    name = name;
    adapter = adapter;
    risk = risk;
    target_kinds = kind ∷ [];
    params = params;
    executor = executor;
    confirm = confirm;
    description = description;
  },
)

unfoldable pub registry : List (String × Operation)
registry =
    op "mock.echo" "mock" low "mock" (("message", message) ∷ []) "echo" ""
      "Record a message in the mock adapter state."
    ∷ op "mock.noop" "mock" low "mock" [] "noop" "" "Do nothing; proves the approval path."
    ∷ op "mock.fail" "mock" low "mock" [] "fail" "" "Fail deliberately; test-only."
    ∷ op "mock.sleep" "mock" disruptive "mock" (("seconds", seconds) ∷ []) "sleep" ""
        "Sleep for a bounded time; test-only."
    ∷ op "mock.halt" "mock" high "mock" [] "noop" "HALT {target_name}"
        "Test-only high-risk operation."
    ∷ op "vm.start" "proxmox" low "vm" [] "vm_start" "" "Start a virtual machine."
    ∷ op "vm.shutdown" "proxmox" disruptive "vm" [] "vm_shutdown" ""
        "Ask a virtual machine to shut down."
    ∷ op "vm.reboot" "proxmox" disruptive "vm" [] "vm_reboot" "" "Reboot a virtual machine."
    ∷ op "vm.stop" "proxmox" high "vm" [] "vm_stop" "STOP {target_name}"
        "Hard-stop a virtual machine."
    ∷ op "ct.start" "proxmox" low "ct" [] "ct_start" "" "Start a container."
    ∷ op "ct.shutdown" "proxmox" disruptive "ct" [] "ct_shutdown" "" "Ask a container to shut down."
    ∷ op "ct.reboot" "proxmox" disruptive "ct" [] "ct_reboot" "" "Reboot a container."
    ∷ op "ct.stop" "proxmox" high "ct" [] "ct_stop" "STOP {target_name}" "Hard-stop a container."
    ∷ op "zpool.scrub" "proxmox" disruptive "node" (("pool", pool) ∷ []) "zpool_scrub" ""
        "Start a scrub on a ZFS pool."
    ∷ op "service.restart" "proxmox" disruptive "node" (("unit", unit) ∷ []) "service_restart" ""
        "Restart one allowlisted systemd unit."
    ∷ op "vm.destroy" "proxmox" forbidden "vm" [] "vm_destroy" ""
        "Destroy a virtual machine. Not available."
    ∷ op "ct.destroy" "proxmox" forbidden "ct" [] "ct_destroy" ""
        "Destroy a container. Not available."
    ∷ []

-- `get_operation` of a text
unfoldable pub get_operation : String → Option Operation
get_operation name = lookup name registry

-- `REGISTRY.get` of any JSON value: a list or an object is unhashable, and no other value is a key.
unfoldable pub get_operation_value : Value → Result (Option Operation)
unfolding get_operation
get_operation_value (str name) = ok (get_operation name)
get_operation_value (arr vs) = err crash
get_operation_value (obj fs) = err crash
get_operation_value _ = ok none

-- `template.format(target_name=name)`, for templates whose only braces are `{target_name}`. The
-- number counts the characters of a field that are still to be skipped.
unfoldable pub format : ℕ → String → String → String
format skip name String.[] = String.[]
format (suc skip) name (String.◌∷◌ c s) = format skip name s
format zero name (String.◌∷◌ c s) =
    let rest = format zero name s in
    let after = format 12 name s in
    if starts_with (String.◌∷◌ c s) "{target_name}" then name <> after else String.◌∷◌ c rest

unfoldable pub confirmation_phrase : Operation → String → String
unfolding format
confirmation_phrase o name =
    if o.confirm == "" then format 0 name "APPROVE {target_name}" else format 0 name o.confirm
