-- ===== src/Tests/Setup.antt =====
-- The theorems on the configuration, the start of the daemon, the command line and the publishing
-- script, at concrete inputs.
use msp_fleet_public.Base.{pos, negsuc, String, true, false, ◌≡◌, refl, some, [], ◌∷◌}
use msp_fleet_public.Adapter.Mock.{MockHost}
use msp_fleet_public.Broker.{Broker, World}
use msp_fleet_public.Cli.{parse_params, strip_minus}
use msp_fleet_public.Cli.Printed.{parse_params-spell}
use msp_fleet_public.Config.{Json, readable, read_file, key_match}
use msp_fleet_public.Config.ClientConf.{load_client, read_lines, read_pair}
use msp_fleet_public.Config.PolicyFile.{
  load_policy, check_policy, is_client_id, check_names, check_adapters, check_each, check_adapter,
  check_texts, check_script, check_script_on, check_plans, is_interpreter,
}
use msp_fleet_public.Config.PolicyFile.Bounds.{IsBounded, load_policy-IsBounded}
use msp_fleet_public.Config.PolicyView.{policy_of}
use msp_fleet_public.Daemon.{Setup, service_of, build_service, seed_inventory, store_targets}
use msp_fleet_public.Daemon.Inventory.{all_own, all_own-build_service}
use msp_fleet_public.Daemon.Ready.{IsReady, build_service-IsReady}
use msp_fleet_public.Daemon.Seed.{SeedFile, seed_rows}
use msp_fleet_public.Exec.{◌>>=◌}
use msp_fleet_public.Failure.{ok}
use msp_fleet_public.Kinds.{drop_newline}
use msp_fleet_public.Plan.{Client}
use msp_fleet_public.Platform.{decimal, decimal_from}
use msp_fleet_public.Policy.{is_enabled}
use msp_fleet_public.Publish.{Python}
use msp_fleet_public.Publish.Collect.{Collected}
use msp_fleet_public.Samples.{platform, broker, start, mock_target}
use msp_fleet_public.Samples.Scripts.{unreachable}
use msp_fleet_public.Text.{strip, lstrip, rstrip, splitlines, partition_at}
use msp_fleet_public.Value.{Value, bool, num, str, obj, arr, Fields, field, end, nil, cons, truthy}

abbrev names_of : String → Value
names_of name = arr (cons (str name) nil)

-- a policy.json with the mock adapter
abbrev policy : Fields
policy = field "version" (num (pos 1)) (
    field "client_id" (str "client-001") (
      field "approver_groups" (names_of "msp-approvers") (
        field "approver_users" (arr nil) (
          field "reader_groups" (names_of "msp-readers") (
            field "approval_ttl_seconds" (num (pos 1800)) (
              field "adapters"
                (obj (
                  field "mock"
                    (obj
                      (field "enabled" (bool true) (field "operations" (names_of "mock.echo") end)))
                    end))
                end))))))

abbrev json : Json
json = record {
  loads = λ text. some (obj policy);
  str_real = λ x. x;
  is_one = λ x. false;
  str_of = λ v. "";
  column = λ v. ok "";
}

loaded : load_policy json (readable "{}") ≡ ok policy
unfolding load_policy read_file check_policy is_client_id check_names check_adapters check_each
    check_adapter check_texts check_script check_script_on check_plans is_interpreter key_match
    drop_newline
loaded = refl

load_policy-IsBounded_example : IsBounded policy
load_policy-IsBounded_example = load_policy-IsBounded json (readable "{}") policy loaded

abbrev setup : Setup MockHost
setup = record {
  platform = platform;
  json = json;
  policy_file = readable "{}";
  client_file = readable "client_id=client-001\nclient_name=demo\nsite_id=site-001\n";
  inventory_seed = SeedFile.missing;
  mock_adapter = elim broker.adapters [ ((name, a) ∷ rest) ↦ a | [] ↦ unreachable ];
  runner = λ argv stdin timeout h. (ok (pos 0, "", ""), h);
  observed = λ h. "now";
  clock = broker.clock;
  uuid = broker.uuid;
  proposals_dir = broker.proposals_dir;
}

abbrev client : Client
client = record { client_id = "client-001"; client_name = "demo"; site_id = "site-001" }

client_loaded : load_client setup.client_file ≡ ok client
unfolding load_client read_file read_lines read_pair strip lstrip rstrip splitlines partition_at
    key_match drop_newline
client_loaded = refl

abbrev built : Broker MockHost
built = service_of setup client (policy_of policy)

is_built : (build_service setup start).0 ≡ ok built
unfolding build_service load_policy read_file check_policy is_client_id check_names check_adapters
    check_each check_adapter check_texts check_script check_script_on check_plans is_interpreter
    key_match drop_newline load_client read_lines read_pair strip lstrip rstrip splitlines
    partition_at seed_inventory seed_rows store_targets is_enabled policy_of truthy ◌>>=◌
is_built = refl

build_service-IsReady_example : IsReady built
build_service-IsReady_example = build_service-IsReady setup start built is_built

-- the database of this client alone
abbrev own_world : World MockHost
own_world = record start { inventory = mock_target ∷ [] }

all_own-build_service_example : all_own client (build_service setup own_world).1.inventory ≡ true
unfolding all_own
all_own-build_service_example = all_own-build_service client setup own_world client_loaded refl

parse_params-spell_example :
    parse_params platform ("message=hello" ∷ "count=-12" ∷ [])
    ≡ ok (("message", str "hello") ∷ ("count", num (negsuc 11)) ∷ [])
unfolding strip lstrip rstrip strip_minus decimal decimal_from
parse_params-spell_example =
    parse_params-spell platform (("message", str "hello") ∷ ("count", num (negsuc 11)) ∷ []) refl
      refl

abbrev python : Python
python = record { fullmatch = λ pattern text. false; str_of = λ v. ""; before = λ s t. true }

abbrev collected : Collected
collected = record { hosts = "pve1" ∷ "web.example" ∷ []; names = "Example" ∷ []; addrs = [] }
