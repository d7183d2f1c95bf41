-- ===== src/Plan.antt =====
-- The frozen plan of a proposal (`build_plan` of roles/msp_broker/files/broker/model.py), with the
-- script, the steps and the declaration that a plan may hold, and the target and client it names
-- (service.py, store.py, config.py there).
pub mod Json
use msp_fleet_public.Base.{
  ℕ, ℤ, pos, negsuc, String, Bool, true, false, Option, none, some, List, ◌==◌, nat_eq,
}
use msp_fleet_public.Params.{Params}
use msp_fleet_public.Value.{Value}

-- A value of an adapter's state dictionary.
pub data Atom : Type 0 where
  text : String → Atom
  flag : Bool → Atom
  number : ℤ → Atom

abbrev bool_int : Bool → ℤ
bool_int true = pos 1
bool_int false = pos 0

abbrev int_eq : ℤ → ℤ → Bool
int_eq (pos m) (pos n) = nat_eq m n
int_eq (negsuc m) (negsuc n) = nat_eq m n
int_eq _ _ = false

-- `==` of Python: a boolean equals the number 0 or 1
unfoldable pub atom_eq : Atom → Atom → Bool
atom_eq (text s) (text t) = s == t
atom_eq (flag a) (flag b) = int_eq (bool_int a) (bool_int b)
atom_eq (flag a) (number n) = int_eq (bool_int a) n
atom_eq (number m) (flag b) = int_eq m (bool_int b)
atom_eq (number m) (number n) = int_eq m n
atom_eq _ _ = false

-- `a.get(k) == b.get(k)`
unfoldable pub found_eq : Option Atom → Option Atom → Bool
unfolding atom_eq
found_eq none none = true
found_eq (some a) (some b) = atom_eq a b
found_eq _ _ = false

-- What a precheck observes, and the state before and after a run.
abbrev pub State : Type 0
State = List (String × Atom)

-- client.conf
pub record Client : Type 0 where
  pub client_id : String
  pub client_name : String
  pub site_id : String

-- A row of the inventory table.
pub record Target : Type 0 where
  pub id : String
  pub client_id : String
  pub site_id : String
  pub adapter : String
  pub kind : String
  pub name : String
  pub external_id : String
  pub attrs : Value

pub data Severity : Type 0 where
  warning forbidden : Severity

-- An entry of `scriptcheck.scan`.
pub record Finding : Type 0 where
  pub line : ℕ
  pub severity : Severity
  pub label : String
  pub text : String

pub record Script : Type 0 where
  pub sha256 : String
  pub bytes : ℕ
  pub interpreter : String
  pub timeout_seconds : ℕ
  pub findings : List Finding
  pub path : String

pub record Step : Type 0 where
  pub adapter : String
  pub operation : String
  pub target_id : String
  pub target_name : String
  pub target_external_id : String
  pub parameters : Params
  pub executor : String

-- `effects` is there for scripts only.
pub record Declared : Type 0 where
  pub purpose : String
  pub effects : Option String

pub record Plan : Type 0 where
  pub version : ℕ
  pub client_id : String
  pub site_id : String
  pub adapter : String
  pub operation : String
  pub target_id : String
  pub target_name : String
  pub target_external_id : String
  pub parameters : Params
  pub executor : String
  pub timeout_seconds : ℕ
  pub preconditions : State
  pub steps : Option (List Step)
  pub script : Option Script
  pub ai_declared : Option Declared

unfoldable pub build_plan :
    Client
    → String
    → String
    → Target
    → Params
    → String
    → ℕ
    → State
    → Option (List Step)
    → Option Script
    → Option Declared
    → Plan
build_plan client adapter operation target parameters executor timeout preconditions steps script
      declared =
    record {
      version = 1;
      client_id = client.client_id;
      site_id = client.site_id;
      adapter = adapter;
      operation = operation;
      target_id = target.id;
      target_name = target.name;
      target_external_id = target.external_id;
      parameters = parameters;
      executor = executor;
      timeout_seconds = timeout;
      preconditions = preconditions;
      steps = steps;
      script = script;
      ai_declared = declared;
    }

-- `ExecResult` of adapters.py
pub record ExecResult : Type 0 where
  pub rc : ℤ
  pub stdout : String
  pub stderr : String
  pub pre_state : State
  pub post_state : State
  pub transcript : String

-- `ExecResult(rc=rc, stderr=message)`
abbrev pub failure : ℤ → String → ExecResult
failure rc message = record {
  rc = rc;
  stdout = "";
  stderr = message;
  pre_state = List.[];
  post_state = List.[];
  transcript = "";
}
