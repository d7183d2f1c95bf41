-- ===== src/Config/PolicyFile/Bounds.antt =====
-- The numbers of a policy that was loaded (roles/msp_broker/files/broker/config.py).
use msp_fleet_public.Base.{
  ℕ, ◌≤◌, String, true, ◌≡◌, sym, subst, arith, Bool, false, ◌⊎◌, inl, inr, refl,
}
use msp_fleet_public.Config.{Json, Content}
use msp_fleet_public.Config.PolicyFile.{
  is_int_in, is_on, disabled, dict_or, check_script_on, check_script, check_plans, check_policy,
  load_policy, policy_text, decoded,
}
use msp_fleet_public.Config.PolicyView.{fields_of, number_at, policy_of}
use msp_fleet_public.Failure.{ok, bind-eq-ok}
use msp_fleet_public.Value.{Value, Fields, entries, lookup, get_or}

between_bounds :
    (lo hi : ℕ) (key : String) (fs : Fields)
    → is_int_in lo hi (lookup key (entries fs)) ≡ true
    → (lo ≤ number_at key fs) × (number_at key fs ≤ hi)
between_bounds lo hi key fs h = ground arith

script_bounds :
    (script : Fields)
    → check_script_on script ≡ ok tt
    → (1 ≤ number_at "max_bytes" script)
      × (number_at "max_bytes" script ≤ 1048576)
      × (1 ≤ number_at "default_timeout_seconds" script)
      × (number_at "default_timeout_seconds" script ≤ number_at "max_timeout_seconds" script)
      × (number_at "max_timeout_seconds" script ≤ 86400)
unfolding check_script_on
script_bounds script h = ground arith

script_on_bounds :
    (v : Value)
    → check_script v ≡ ok tt
    → is_on (fields_of v) ≡ true
    → check_script_on (fields_of v) ≡ ok tt
unfolding check_script
script_on_bounds v h on = ground arith

plans_on_bounds :
    (v : Value)
    → check_plans v ≡ ok tt
    → is_on (fields_of v) ≡ true
    → (1 ≤ number_at "max_steps" (fields_of v)) × (number_at "max_steps" (fields_of v) ≤ 32)
unfolding check_plans
plans_on_bounds v h on = ground arith

when_on : {P : Type 0} (on : Bool) → (on ≡ true → P) → (on ≡ false) ⊎ P
when_on true f = inr (f refl)
when_on false f = inl refl

-- What a policy that passed the checks satisfies, seen as the broker reads it.
pub record IsBounded (fs : Fields) : Type 0 where
  pub ttl_least : 30 ≤ (policy_of fs).approval_ttl_seconds
  pub ttl_most : (policy_of fs).approval_ttl_seconds ≤ 3600
  pub script :
      (is_on (fields_of (get_or "script" disabled fs)) ≡ false)
      ⊎ ((1 ≤ (policy_of fs).script.max_bytes)
          × ((policy_of fs).script.max_bytes ≤ 1048576)
          × (1 ≤ (policy_of fs).script.default_timeout_seconds)
          × ((policy_of fs).script.default_timeout_seconds
              ≤ (policy_of fs).script.max_timeout_seconds)
          × ((policy_of fs).script.max_timeout_seconds ≤ 86400))
  pub plans :
      (is_on (fields_of (get_or "plans" disabled fs)) ≡ false)
      ⊎ ((1 ≤ (policy_of fs).plans.max_steps) × ((policy_of fs).plans.max_steps ≤ 32))

-- What the checks that passed were.
checked_numbers :
    (json : Json) (fs policy : Fields)
    → check_policy json fs ≡ ok policy
    → (policy ≡ fs)
      × (is_int_in 30 3600 (lookup "approval_ttl_seconds" (entries fs)) ≡ true)
      × (check_script (get_or "script" disabled fs) ≡ ok tt)
      × (check_plans (get_or "plans" disabled fs) ≡ ok tt)
unfolding check_policy
checked_numbers json fs policy h = ground arith

check_policy-IsBounded :
    (json : Json) (fs policy : Fields) → check_policy json fs ≡ ok policy → IsBounded policy
unfolding policy_of
check_policy-IsBounded json fs policy h =
    let (same, ttl, script, plans) = checked_numbers json fs policy h in
    subst IsBounded (sym same) (record {
      ttl_least = (between_bounds 30 3600 "approval_ttl_seconds" fs ttl).0;
      ttl_most = (between_bounds 30 3600 "approval_ttl_seconds" fs ttl).1;
      script = when_on _ λ on. script_bounds _ (script_on_bounds _ script on);
      plans = when_on _ (plans_on_bounds _ plans);
    })

-- A policy that is loaded lets a proposal live between 30 and 3600 seconds; if its script section is
-- switched on by `true`, scripts have 1 to 1048576 bytes and a default timeout of at least 1 second
-- that does not exceed the longest, which is at most 86400; if its plans section is, a plan has at
-- most 1 to 32 steps.
pub load_policy-IsBounded :
    (json : Json) (content : Content) (policy : Fields)
    → load_policy json content ≡ ok policy
    → IsBounded policy
unfolding load_policy
load_policy-IsBounded json content policy h =
    let (text, read, h₁) = bind-eq-ok (policy_text content) _ policy h in
    let (v, found, h₂) = bind-eq-ok (decoded (json.loads text)) _ policy h₁ in
    let (fs, dict, h₃) = bind-eq-ok (dict_or v _) _ policy h₂ in
    check_policy-IsBounded json fs policy h₃
