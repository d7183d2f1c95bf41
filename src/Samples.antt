-- ===== src/Samples.antt =====
-- A concrete broker over the mock adapter, with its world and callers: test data for the modules of
-- tests. The texts and numbers are those of roles/msp_broker/files/tests/test_broker.py where it has
-- any.
pub mod Scripts
use msp_fleet_public.Base.{
  ℕ, String, Bool, true, false, Option, none, some, pos, List, [], ◌∷◌, ◌++◌, length, ◌<>◌,
}
use msp_fleet_public.Adapter.Mock.{MockHost, mock, Outcome}
use msp_fleet_public.Broker.{Broker, World, free}
use msp_fleet_public.Kinds.{codes}
use msp_fleet_public.Plan.{Client, Target, Plan, text, number}
use msp_fleet_public.Platform.{Platform, decimal}
use msp_fleet_public.Policy.{Policy, Actor}
use msp_fleet_public.Service.Requests.{Request}
use msp_fleet_public.Registry.{Risk}
use msp_fleet_public.Store.Rows.{Row, Status}
use msp_fleet_public.Value.{Value, str, obj, null, field, end, get_or}

abbrev field_text : Value → String
field_text (str s) = s
field_text v = ""

-- enough of the canonical text to tell the plans here apart
abbrev sample_text : Value → List ℕ
sample_text (obj plan) =
    codes (
      field_text (get_or "operation" (str "") plan)
      <> field_text (get_or "target_id" (str "") plan))
sample_text v = []

-- A hash of the length of the text.
abbrev pub platform : Platform
platform = record {
  re_search = λ pattern text. false;
  re_group = λ pattern text. none;
  re_escape = λ text. text;
  re_sub = λ pattern replacement text. text;
  re_groups = λ pattern text. none;
  re_split = λ pattern text. text ∷ [];
  isdigit = λ text. false;
  is_signed_digits = λ text. false;
  int_of = λ text. none;
  lower = λ text. text;
  sha256 = λ bytes. decimal (length bytes);
  canonical = sample_text;
  decode = λ bytes. "";
}

abbrev pub broker_of : List String → Broker MockHost
broker_of operations = record {
  platform = platform;
  client = record { client_id = "client-001"; client_name = "Client"; site_id = "site-001" };
  policy = record {
    client_id = str "client-001";
    approver_groups = "msp-approvers" ∷ [];
    approver_users = [];
    reader_groups = "msp-readers" ∷ [];
    approval_ttl_seconds = 1800;
    adapters = ("mock", record { enabled = true; operations = operations }) ∷ [];
    script = record {
      enabled = true;
      max_bytes = 65536;
      default_timeout_seconds = 300;
      max_timeout_seconds = 3600;
      interpreters = "bash" ∷ [];
      forbidden_patterns = [];
    };
    plans = record { enabled = true; max_steps = 10 };
  };
  adapters =
      (
        "mock",
        mock platform (λ interpreter bytes timeout h. (Outcome.timed_out "", h)) (λ h. "now"),
      )
      ∷ [];
  clock = λ n. n;
  uuid = λ n. decimal n;
  proposals_dir = "/var/lib/msp/proposals";
}

abbrev pub broker : Broker MockHost
broker = broker_of ("mock.echo" ∷ "mock.halt" ∷ [])

abbrev pub mock_target : Target
mock_target = record {
  id = "mock/one";
  client_id = "client-001";
  site_id = "site-001";
  adapter = "mock";
  kind = "mock";
  name = "one";
  external_id = "one";
  attrs = obj end;
}

-- a target of another client
abbrev pub other_target : Target
other_target = record mock_target { id = "mock/two"; client_id = "client-002"; name = "two" }

abbrev pub start : World MockHost
start = record {
  proposals = [];
  receipts = [];
  inventory = mock_target ∷ other_target ∷ [];
  files = λ path. none;
  scratch = λ path. none;
  lock = free;
  log = [];
  host = none;
  ticks = 0;
  ids = 0;
}

abbrev pub approver : Actor
approver = record { uid = 1000; name = "ann"; can_read = true; can_approve = true }

abbrev pub reader : Actor
reader = record { uid = 1001; name = "bob"; can_read = true; can_approve = false }

abbrev pub echo_parameters : Value
echo_parameters = obj (field "message" (str "hello") end)

abbrev pub propose_echo : Request
propose_echo = Request.propose (str "mock.echo") (str "mock/one") echo_parameters

abbrev pub propose_halt : Request
propose_halt = Request.propose (str "mock.halt") (str "one") null

-- the frozen plan of "mock.echo"
abbrev pub echo_plan : Plan
echo_plan = record {
  version = 1;
  client_id = "client-001";
  site_id = "site-001";
  adapter = "mock";
  operation = "mock.echo";
  target_id = "mock/one";
  target_name = "one";
  target_external_id = "one";
  parameters = ("message", str "hello") ∷ [];
  executor = "echo";
  timeout_seconds = 600;
  preconditions = ("counter", number (pos 0)) ∷ ("target", text "mock/one") ∷ [];
  steps = none;
  script = none;
  ai_declared = none;
}

-- the proposal of it, in a given state
abbrev pub row_of : Status → Row
row_of status = record {
  proposal_id = "0";
  client_id = "client-001";
  site_id = "site-001";
  request_uid = 1001;
  adapter = "mock";
  operation = "mock.echo";
  target_id = "mock/one";
  target_name = "one";
  parameters = ("message", str "hello") ∷ [];
  risk = Risk.low;
  status = status;
  plan = echo_plan;
  execution_hash = "17";
  confirmation = "";
  created_at = 1;
  expires_at = 1801;
  approved_at = none;
  approver = none;
  execution_started_at = none;
  execution_finished_at = none;
  result_rc = none;
  result_summary = none;
  pre_state = some echo_plan.preconditions;
  post_state = none;
  ai_declared = none;
}

-- The world in which it awaits approval, and that in which it is rejected.
abbrev pub staged : World MockHost
staged = record start { proposals = row_of Status.proposed ∷ []; ticks = 3; ids = 1 }

abbrev pub rejected_world : World MockHost
rejected_world = record staged { proposals = row_of Status.rejected ∷ [] }
