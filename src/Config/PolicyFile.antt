-- ===== src/Config/PolicyFile.antt =====
-- `load_policy` of roles/msp_broker/files/broker/config.py: the checks, in the order of the source.
pub mod Bounds
use msp_fleet_public.Base.{
  ℕ, ℤ, pos, negsuc, String, Bool, true, false, not, ◌&&◌, ◌||◌, Option, none, some, List, [], ◌∷◌,
  ◌==◌, contains, any, all, leb, ltb, nat_eq, length, between, if◌then◌else◌,
}
use msp_fleet_public.Config.{Json, Content, undecodable, read_file, key_match, bad_if}
use msp_fleet_public.Failure.{
  Result, ok, err, ◌>>=◌, ◌>>◌, config_error, invalid_json, not_a_policy, unknown_policy_keys,
  bad_version, bad_client_id, bad_ttl, bad_names, bad_adapters, adapter_keys, adapter_enabled,
  adapter_operations, needs_key, bad_scripts, bad_script_number, script_timeouts, bad_interpreters,
  bad_patterns, bad_plans, bad_max_steps,
}
use msp_fleet_public.Kinds.{codes, alnum, drop_newline}
use msp_fleet_public.Params.{names}
use msp_fleet_public.Platform.{int_text}
use msp_fleet_public.Value.{
  Value, null, bool, num, real, str, obj, arr, Fields, end, field, items, entries, lookup, get_or,
  nil,
}

-- `_POLICY_KEYS`, `_SCRIPT_KEYS`, `_PLANS_KEYS`, `_ADAPTER_KEYS`
abbrev pub policy_keys : List String
policy_keys =
    "version" ∷ "client_id" ∷ "approver_groups" ∷ "approver_users" ∷ "reader_groups"
    ∷ "approval_ttl_seconds" ∷ "adapters" ∷ "script" ∷ "plans" ∷ []

abbrev pub script_keys : List String
script_keys =
    "enabled" ∷ "max_bytes" ∷ "default_timeout_seconds" ∷ "max_timeout_seconds" ∷ "interpreters"
    ∷ "forbidden_patterns" ∷ []

abbrev pub plans_keys : List String
plans_keys = "enabled" ∷ "max_steps" ∷ []

abbrev pub adapter_cfg_keys : List String
adapter_cfg_keys = "enabled" ∷ "operations" ∷ "host" ∷ "user" ∷ "key" ∷ "known_hosts" ∷ []

-- `set(d) - keys`, as a test
abbrev pub has_unknown : List String → Fields → Bool
has_unknown keys fs = any (λ k. not (contains k keys)) (names (entries fs))

-- `isinstance(v, int) and not isinstance(v, bool) and lo <= v <= hi`, of a value that may be missing
abbrev pub is_int_in : ℕ → ℕ → Option Value → Bool
is_int_in lo hi (some (num n)) = between lo hi n
is_int_in lo hi _ = false

-- `isinstance(v, str) and v`
abbrev pub is_name : Value → Bool
is_name (str s) = not (s == "")
is_name _ = false

-- `isinstance(val, list) and all(...)`
abbrev pub is_list_of : (Value → Bool) → Option Value → Bool
is_list_of p (some (arr vs)) = all p (items vs)
is_list_of p _ = false

-- `get("enabled") is True`
abbrev pub is_on : Fields → Bool
is_on fs = elim (lookup "enabled" (entries fs)) [ some (bool b) ↦ b | _ ↦ false ]

abbrev pub is_bool : Option Value → Bool
is_bool (some (bool b)) = true
is_bool _ = false

abbrev pub disabled : Value
disabled = obj (field "enabled" (bool false) end)

-- `isinstance(d, dict)`
abbrev pub dict_or : Value → Result Fields → Result Fields
dict_or (obj fs) other = ok fs
dict_or _ other = other

-- `[A-Za-z0-9/_.-]`
abbrev pub interpreter_char : ℕ → Bool
interpreter_char c = alnum c || nat_eq c b'/' || nat_eq c b'_' || nat_eq c b'.' || nat_eq c b'-'

abbrev in_interpreter : List ℕ → Bool
in_interpreter s = leb 1 (length s) && leb (length s) 32 && all interpreter_char s

-- an entry of "interpreters"; `$` also matches before a newline at the end
unfoldable pub is_interpreter : Value → Bool
unfolding drop_newline
is_interpreter (str s) = in_interpreter (codes s) || in_interpreter (drop_newline (codes s))
is_interpreter _ = false

-- The loop over three keys.
unfoldable pub check_names : List String → Fields → Result (Unit {0})
check_names [] fs = ok tt
check_names (key ∷ keys) fs =
    bad_if (not (is_list_of is_name (lookup key (entries fs)))) (bad_names key)
    >> check_names keys fs

-- The loop over the four texts that the Proxmox adapter needs.
unfoldable pub check_texts : List String → Fields → Result (Unit {0})
check_texts [] cfg = ok tt
check_texts (key ∷ keys) cfg =
    bad_if (not (is_name (get_or key null cfg))) (needs_key key) >> check_texts keys cfg

-- One round of the loop over the adapters.
unfoldable pub check_adapter : String → Value → Result (Unit {0})
unfolding check_texts
check_adapter name v = do
  cfg ← dict_or v (err (config_error (adapter_keys name)))
  bad_if (has_unknown adapter_cfg_keys cfg) (adapter_keys name)
  bad_if (not (is_bool (lookup "enabled" (entries cfg)))) (adapter_enabled name)
  bad_if (not (is_list_of is_name (lookup "operations" (entries cfg)))) (adapter_operations name)
  if name == "proxmox" && is_on cfg
      then check_texts ("host" ∷ "user" ∷ "key" ∷ "known_hosts" ∷ []) cfg
      else ok tt

unfoldable pub check_each : List (String × Value) → Result (Unit {0})
unfolding check_adapter
check_each [] = ok tt
check_each ((name, v) ∷ adapters) = check_adapter name v >> check_each adapters

unfoldable pub check_adapters : Value → Result (Unit {0})
unfolding check_each
check_adapters v = do
  adapters ← dict_or v (err (config_error bad_adapters))
  bad_if (nat_eq (length (entries adapters)) 0) bad_adapters
  check_each (entries adapters)

-- The checks of a script section that is enabled; the numbers first.
abbrev pub timeouts_cross : Option Value → Option Value → Bool
timeouts_cross (some (num (pos m))) (some (num (pos n))) = ltb n m
timeouts_cross _ _ = false

unfoldable pub check_script_on : Fields → Result (Unit {0})
unfolding is_interpreter
check_script_on script = do
  let at = λ (k : String). lookup k (entries script)
  bad_if (not (is_int_in 1 1048576 (at "max_bytes"))) (bad_script_number "max_bytes")
  bad_if (not (is_int_in 1 86400 (at "default_timeout_seconds")))
      (bad_script_number "default_timeout_seconds")
  bad_if (not (is_int_in 1 86400 (at "max_timeout_seconds")))
      (bad_script_number "max_timeout_seconds")
  bad_if (timeouts_cross (at "default_timeout_seconds") (at "max_timeout_seconds")) script_timeouts
  bad_if
      (not (is_list_of is_interpreter (at "interpreters"))
        || is_list_of (λ v. false) (at "interpreters"))
      bad_interpreters
  bad_if (not (is_list_of is_name (some (get_or "forbidden_patterns" (arr nil) script))))
      bad_patterns

unfoldable pub check_script : Value → Result (Unit {0})
unfolding check_script_on
check_script v = do
  script ← dict_or v (err (config_error bad_scripts))
  bad_if (has_unknown script_keys script) bad_scripts
  if is_on script then check_script_on script else ok tt

unfoldable pub check_plans : Value → Result (Unit {0})
check_plans v = do
  plans ← dict_or v (err (config_error bad_plans))
  bad_if (has_unknown plans_keys plans) bad_plans
  bad_if (is_on plans && not (is_int_in 1 32 (lookup "max_steps" (entries plans)))) bad_max_steps

abbrev pub decoded : Option Value → Result Value
decoded none = err (config_error invalid_json)
decoded (some v) = ok v

-- `_read` under `except ValueError`: a UnicodeDecodeError is a ValueError
abbrev pub policy_text : Content → Result String
unfolding read_file
policy_text undecodable = err (config_error invalid_json)
policy_text content = read_file content

module _ (json : Json) where
  -- `policy.get("version") != 1`, the other way: `True` and `1.0` equal 1
  abbrev pub is_version : Option Value → Bool
  is_version (some (num (pos n))) = nat_eq n 1
  is_version (some (bool b)) = b
  is_version (some (real x)) = json.is_one x
  is_version _ = false

  -- `_KEY.match(str(v))`; the text of a list or an object starts with a bracket
  unfoldable pub is_client_id : Value → Bool
  is_client_id (str s) = key_match (codes s)
  is_client_id (num n) = key_match (codes (int_text n))
  is_client_id (bool true) = key_match (codes "True")
  is_client_id (bool false) = key_match (codes "False")
  is_client_id null = key_match (codes "None")
  is_client_id (real x) = key_match (codes (json.str_real x))
  is_client_id (arr vs) = false
  is_client_id (obj fs) = false

  -- The checks of the policy itself, after the JSON is read.
  unfoldable pub check_policy : Fields → Result Fields
  unfolding is_client_id check_names check_adapters check_script check_plans
  check_policy policy = do
    bad_if (has_unknown policy_keys policy) unknown_policy_keys
    bad_if (not (is_version (lookup "version" (entries policy)))) bad_version
    bad_if (not (is_client_id (get_or "client_id" (str "") policy))) bad_client_id
    bad_if (not (is_int_in 30 3600 (lookup "approval_ttl_seconds" (entries policy)))) bad_ttl
    check_names ("approver_groups" ∷ "approver_users" ∷ "reader_groups" ∷ []) policy
    check_adapters (get_or "adapters" null policy)
    check_script (get_or "script" disabled policy)
    check_plans (get_or "plans" disabled policy)
    ok policy

  -- The content of policy.json is given; the dictionary is returned.
  unfoldable pub load_policy : Content → Result Fields
  unfolding read_file check_policy
  load_policy content = do
    text ← policy_text content
    v ← decoded (json.loads text)
    policy ← dict_or v (err (config_error not_a_policy))
    check_policy policy
