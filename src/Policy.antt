-- ===== src/Policy.antt =====
-- The policy as the broker reads it after `load_policy` of roles/msp_broker/files/broker/config.py,
-- and the caller of a request (authorize.py there).
pub mod Exact
use Prim.Native.Nat.{ℕ}
use msp_fleet_public.Base.{
  String, Bool, true, false, ◌&&◌, ◌||◌, Option, none, some, List, [], ◌∷◌, ◌++◌, nat_eq, any,
  contains, if◌then◌else◌,
}
use msp_fleet_public.Value.{Value, lookup}
use msp_fleet_public.Failure.{Result, ok, err, refused, unknown_uid}

pub record AdapterPolicy : Type 0 where
  pub enabled : Bool
  pub operations : List String

pub record ScriptPolicy : Type 0 where
  pub enabled : Bool
  pub max_bytes : ℕ
  pub default_timeout_seconds : ℕ
  pub max_timeout_seconds : ℕ
  pub interpreters : List String
  pub forbidden_patterns : List String

pub record PlansPolicy : Type 0 where
  pub enabled : Bool
  pub max_steps : ℕ

pub record Policy : Type 0 where
  -- a text, or another JSON value whose text has the form of a key
  pub client_id : Value
  pub approver_groups : List String
  pub approver_users : List String
  pub reader_groups : List String
  pub approval_ttl_seconds : ℕ
  pub adapters : List (String × AdapterPolicy)
  pub script : ScriptPolicy
  pub plans : PlansPolicy

pub record Actor : Type 0 where
  pub uid : ℕ
  pub name : String
  pub can_read : Bool
  pub can_approve : Bool

-- `policy["adapters"].get(name, {}).get("enabled")`
unfoldable pub is_enabled : Policy → String → Bool
is_enabled policy name = elim (lookup name policy.adapters) [
  | some cfg ↦ cfg.enabled
  | none ↦ false
]

-- An entry of the group database.
pub record Group : Type 0 where
  pub gr_gid : ℕ
  pub gr_name : String
  pub gr_mem : List String

-- The names of the groups that the caller is in; the source builds a set.
unfoldable pub groups_of : ℕ → String → List Group → List String
groups_of gid name [] = []
groups_of gid name (g ∷ gs) =
    let rest = groups_of gid name gs in
    if nat_eq g.gr_gid gid || contains name g.gr_mem then g.gr_name ∷ rest else rest

-- `bool(groups & names)`
abbrev pub intersects : List String → List String → Bool
intersects groups names = any (λ g. contains g names) groups

-- `actor_for`, with the user and group databases as arguments
unfoldable pub actor_for : ℕ → ℕ → Policy → (ℕ → Option String) → List Group → Result Actor
unfolding groups_of
actor_for uid gid policy pw_lookup group_list = elim (pw_lookup uid) [
  | none ↦ err (refused (unknown_uid uid))
  | some name ↦
      let groups = groups_of gid name group_list in
      let can_approve =
        nat_eq uid 0
        || contains name policy.approver_users
        || intersects groups policy.approver_groups in
      ok (record {
        uid = uid;
        name = name;
        can_read = can_approve || nat_eq uid 0 || intersects groups policy.reader_groups;
        can_approve = can_approve;
      })
]
