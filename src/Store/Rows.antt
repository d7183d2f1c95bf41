-- ===== src/Store/Rows.antt =====
-- A row of the proposals table, with the states of a proposal, and a receipt
-- (roles/msp_broker/files/broker/store.py; `_receipt` of service.py there).
use msp_fleet_public.Base.{ℕ, ℤ, String, Bool, true, false, Option}
use msp_fleet_public.Params.{Params}
use msp_fleet_public.Plan.{Plan, State, Declared}
use msp_fleet_public.Registry.{Risk}

pub data Status : Type 0 where
  proposed approved rejected cancelled expired executing succeeded failed : Status

unfoldable pub is_proposed : Status → Bool
is_proposed proposed = true
is_proposed _ = false

-- `==` of the texts that stand for the states
unfoldable pub status_eq : Status → Status → Bool
status_eq proposed proposed = true
status_eq approved approved = true
status_eq rejected rejected = true
status_eq cancelled cancelled = true
status_eq expired expired = true
status_eq executing executing = true
status_eq succeeded succeeded = true
status_eq failed failed = true
status_eq _ _ = false

-- The columns that `insert_proposal` may leave NULL are options.
pub record Row : Type 0 where
  pub proposal_id : String
  pub client_id : String
  pub site_id : String
  pub request_uid : ℕ
  pub adapter : String
  pub operation : String
  pub target_id : String
  pub target_name : String
  pub parameters : Params
  pub risk : Risk
  pub status : Status
  pub plan : Plan
  pub execution_hash : String
  pub confirmation : String
  pub created_at : ℕ
  pub expires_at : ℕ
  pub approved_at : Option ℕ
  pub approver : Option String
  pub execution_started_at : Option ℕ
  pub execution_finished_at : Option ℕ
  pub result_rc : Option ℤ
  pub result_summary : Option String
  pub pre_state : Option State
  pub post_state : Option State
  pub ai_declared : Option Declared

pub record ScriptReceipt : Type 0 where
  pub sha256 : String
  pub interpreter : String
  pub timeout_seconds : ℕ
  pub transcript : String

pub record Receipt : Type 0 where
  pub proposal_id : String
  pub client_id : String
  pub site_id : String
  pub adapter : String
  pub operation : String
  pub target_id : String
  pub target_name : String
  pub parameters : Params
  pub risk : Risk
  pub request_uid : ℕ
  pub approver : String
  pub created_at : ℕ
  pub approved_at : Option ℕ
  pub execution_started_at : Option ℕ
  pub execution_finished_at : Option ℕ
  pub execution_hash : String
  pub pre_state : Option State
  pub post_state : Option State
  pub status : Status
  pub return_code : Option ℤ
  pub ai_declared : Option Declared
  pub stdout : Option String
  pub stderr : Option String
  pub script : Option ScriptReceipt
