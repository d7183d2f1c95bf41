-- ===== src/Failure.antt =====
-- The exceptions of the broker (adapters.py, model.py, store.py under roles/msp_broker/files/broker).
-- A refusal is identified by what its message says; `crash` stands for every exception that the
-- broker does not raise itself, such as a TypeError or a KeyError.
use msp_fleet_public.Base.{ℕ, String, ◌≡◌, refl}

-- `PlanError` of model.py
pub data PlanFault : Type 0 where
  not_an_object : PlanFault
  unknown_parameters : PlanFault
  missing_parameter : String → PlanFault
  invalid_parameter : String → String → PlanFault

-- The messages of `Refused`.
pub data Refusal : Type 0 where
  not_permitted not_an_approver unknown_proposal not_awaiting : Refusal
  unknown_uid : ℕ → Refusal
  adapter_unavailable adapter_disabled : String → Refusal
  unsupported_operation forbidden_operation : String → Refusal
  unknown_operation : Refusal
  target_required foreign_target : Refusal
  ambiguous_target unknown_target : String → Refusal
  wrong_adapter : String → Refusal
  wrong_kind : String → String → Refusal
  bad_parameters : PlanFault → Refusal
  from_adapter : String → Refusal
  hash_mismatch confirmation_mismatch busy cannot_lock expired_proposal not_requester : Refusal
  scripts_disabled cannot_run_scripts interpreter_refused bad_timeout : Refusal
  purpose_required text_too_long cannot_open not_regular too_big not_owner : Refusal
  forbidden_pattern : Refusal
  plans_disabled bad_step_count step_not_object : Refusal
  bad_params unknown_method unknown_verb : Refusal
  clients_disagree seed_unreadable seed_not_list seed_not_object seed_incomplete : Refusal
  seed_adapter bad_pair : Refusal

-- The messages of `ConfigError` (config.py); a number is that of a line, a text is a key.
pub data ConfigFault : Type 0 where
  cannot_read invalid_json not_a_policy unknown_policy_keys bad_version bad_client_id : ConfigFault
  bad_ttl bad_adapters bad_scripts script_timeouts bad_interpreters bad_patterns : ConfigFault
  bad_plans bad_max_steps : ConfigFault
  expected_pair : ℕ → ConfigFault
  unknown_key : ℕ → String → ConfigFault
  bad_value : ℕ → String → ConfigFault
  missing_key bad_names bad_script_number needs_key : String → ConfigFault
  adapter_keys adapter_enabled adapter_operations : String → ConfigFault

pub data Fault : Type 0 where
  refused : Refusal → Fault
  adapter_error : String → Fault
  config_error : ConfigFault → Fault
  store_error : Fault
  crash : Fault

pub data Result {ℓ} (A : Type ℓ) : Type ℓ where
  ok : A → Result A
  err : Fault → Result A

module _ {ℓ κ} {A : Type ℓ} {B : Type κ} where
  infixl 5 ◌>>=◌
  abbrev pub ◌>>=◌ : Result A → (A → Result B) → Result B
  err fault >>= next = err fault
  ok value >>= next = next value

module _ {ℓ} {B : Type ℓ} where
  infixl 5 ◌>>◌
  -- `check` raises or lets `next` go on
  abbrev pub ◌>>◌ : Result (Unit {0}) → Result B → Result B
  check >> next = check >>= λ _. next

module _ {A B : Type 0} where
  -- What a chain that returns went through.
  pub bind-eq-ok :
      (first : Result A) (next : A → Result B) (value : B)
      → (first >>= next) ≡ ok value
      → (a : A) × (first ≡ ok a) × (next a ≡ ok value)
  bind-eq-ok (err e) next value h = cc
  bind-eq-ok (ok a) next value h = (a, refl, h)
