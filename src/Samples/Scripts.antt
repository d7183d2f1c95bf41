-- ===== src/Samples/Scripts.antt =====
-- A script proposal with its file, a plan in JSON, and adapters that change or refuse things: test
-- data.
use msp_fleet_public.Base.{ℕ, String, true, pos, none, some, List, [], ◌∷◌, ◌==◌, if◌then◌else◌}
use msp_fleet_public.Adapter.{Adapter, regular}
use msp_fleet_public.Adapter.Mock.{MockHost, mock, Outcome}
use msp_fleet_public.Broker.{Broker, World}
use msp_fleet_public.Exec.{raise}
use msp_fleet_public.Failure.{adapter_error}
use msp_fleet_public.Kinds.{codes, message}
use msp_fleet_public.Plan.{Script}
use msp_fleet_public.Platform.{Platform}
use msp_fleet_public.Registry.{Operation, low}
use msp_fleet_public.Samples.{platform, broker, staged, echo_plan, row_of, echo_parameters}
use msp_fleet_public.Store.Rows.{Row, Status}
use msp_fleet_public.Value.{Value, str, obj, field, end}

-- scripts that count up the host's counter
abbrev pub scripted : Broker MockHost
scripted = record broker {
  adapters =
      (
        "mock",
        mock platform
            (λ interpreter bytes timeout h. (
              Outcome.finished (pos 0) "" "",
              some (record { counter = 9; last_message = ""; last_target = "" }),
            ))
            (λ h. "now"),
      )
      ∷ [];
}

abbrev pub script_bytes : List ℕ
script_bytes = codes "echo hi"

abbrev pub script : Script
script = record {
  sha256 = "7";
  bytes = 7;
  interpreter = "bash";
  timeout_seconds = 300;
  findings = [];
  path = "/p/0/script";
}

abbrev pub script_row : Row
script_row = record (row_of Status.executing) {
  operation = "script.run";
  plan = record echo_plan {
    operation = "script.run";
    executor = "run_script";
    script = some script;
  };
}

abbrev pub script_world : World MockHost
script_world = record staged {
  files = λ path. if path == "/p/0/script" then some (regular script_bytes) else none;
}

-- an adapter that cannot be reached
abbrev pub unreachable : Adapter MockHost
unreachable = record {
  precheck = λ operation target parameters. raise (adapter_error "ssh failed");
  read = λ inventory verb args. raise (adapter_error "ssh failed");
  preconditions_hold = none;
  execute = λ operation target parameters plan. raise (adapter_error "ssh failed");
  run_script = none;
}

abbrev pub unreachable_broker : Broker MockHost
unreachable_broker = record broker { adapters = ("mock", unreachable) ∷ [] }

-- a broker whose patterns match every line
abbrev pub strict_platform : Platform
strict_platform = record platform { re_search = λ pattern text. true; decode = λ bytes. "echo hi" }

abbrev pub strict : Broker MockHost
strict = record broker { platform = strict_platform }

-- the steps of a plan, as the requester sends them
abbrev pub plan_step : String → Value
plan_step operation = obj (
    field "operation" (str operation)
      (field "target" (str "mock/one") (field "parameters" echo_parameters end)))

-- the registry's entry of "mock.echo"
abbrev pub echo : Operation
echo = record {
  name = "mock.echo";
  adapter = "mock";
  risk = low;
  target_kinds = "mock" ∷ [];
  params = ("message", message) ∷ [];
  executor = "echo";
  confirm = "";
  description = "Record a message in the mock adapter state.";
}
