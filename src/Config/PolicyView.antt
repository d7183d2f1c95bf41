-- ===== src/Config/PolicyView.antt =====
-- How the broker reads the dictionary that `load_policy` of
-- roles/msp_broker/files/broker/config.py returns: `policy[...]` and `.get(...)` of service.py and
-- authorize.py there.
use msp_fleet_public.Base.{ℕ, pos, String, some, List, [], ◌∷◌}
use msp_fleet_public.Config.PolicyFile.{disabled}
use msp_fleet_public.Policy.{Policy, AdapterPolicy, ScriptPolicy, PlansPolicy}
use msp_fleet_public.Value.{
  Value, null, num, str, obj, arr, Fields, end, items, entries, lookup, get_or, truthy,
}

abbrev pub fields_of : Value → Fields
fields_of (obj fs) = fs
fields_of _ = end

abbrev pub number_at : String → Fields → ℕ
number_at key fs = elim (lookup key (entries fs)) [ some (num (pos n)) ↦ n | _ ↦ 0 ]

abbrev pub texts_in : List Value → List String
texts_in [] = []
texts_in (str s ∷ vs) = s ∷ texts_in vs
texts_in (_ ∷ vs) = texts_in vs

abbrev pub texts_at : String → Fields → List String
texts_at key fs = elim (lookup key (entries fs)) [ some (arr vs) ↦ texts_in (items vs) | _ ↦ [] ]

abbrev pub adapter_of : Value → AdapterPolicy
adapter_of v = record {
  enabled = truthy (get_or "enabled" null (fields_of v));
  operations = texts_at "operations" (fields_of v);
}

abbrev pub adapters_of : List (String × Value) → List (String × AdapterPolicy)
adapters_of [] = []
adapters_of ((name, v) ∷ l) = (name, adapter_of v) ∷ adapters_of l

abbrev pub script_of : Fields → ScriptPolicy
script_of fs = record {
  enabled = truthy (get_or "enabled" null fs);
  max_bytes = number_at "max_bytes" fs;
  default_timeout_seconds = number_at "default_timeout_seconds" fs;
  max_timeout_seconds = number_at "max_timeout_seconds" fs;
  interpreters = texts_at "interpreters" fs;
  forbidden_patterns = texts_at "forbidden_patterns" fs;
}

abbrev pub plans_of : Fields → PlansPolicy
plans_of fs = record {
  enabled = truthy (get_or "enabled" null fs);
  max_steps = number_at "max_steps" fs;
}

unfoldable pub policy_of : Fields → Policy
unfolding truthy
policy_of fs = record {
  client_id = get_or "client_id" null fs;
  approver_groups = texts_at "approver_groups" fs;
  approver_users = texts_at "approver_users" fs;
  reader_groups = texts_at "reader_groups" fs;
  approval_ttl_seconds = number_at "approval_ttl_seconds" fs;
  adapters = adapters_of (entries (fields_of (get_or "adapters" null fs)));
  script = script_of (fields_of (get_or "script" disabled fs));
  plans = plans_of (fields_of (get_or "plans" disabled fs));
}
