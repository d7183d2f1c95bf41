-- ===== src/Policy/Exact.antt =====
-- Who may read and who may approve (roles/msp_broker/files/broker/authorize.py).
use msp_fleet_public.Base.{
  ℕ, String, Bool, ◌&&◌, ◌||◌, ◌≡◌, refl, Option, some, List, [], ◌∷◌, nat_eq, any, contains, arith,
}
use msp_fleet_public.Failure.{ok}
use msp_fleet_public.Policy.{Policy, Group, groups_of, intersects, actor_for}

-- The caller belongs to the group, by its primary group or as a listed member.
abbrev pub belongs : ℕ → String → Group → Bool
belongs gid name g = nat_eq g.gr_gid gid || contains name g.gr_mem

-- Some entry of the group database is one that the caller belongs to and whose name is listed.
abbrev pub is_in : ℕ → String → List Group → List String → Bool
is_in gid name groups listed = any (λ g. belongs gid name g && contains g.gr_name listed) groups

intersects-groups_of :
    (gid : ℕ) (name : String) (groups : List Group) (listed : List String)
    → intersects (groups_of gid name groups) listed ≡ is_in gid name groups listed
unfolding groups_of
intersects-groups_of gid name [] listed = refl
intersects-groups_of gid name (g ∷ gs) listed =
    ground (arith, intersects-groups_of gid name gs listed)

-- Root, a listed user, or a member of a listed approver group.
abbrev pub may_approve : ℕ → ℕ → Policy → List Group → String → Bool
may_approve uid gid policy groups name =
    nat_eq uid 0
    || contains name policy.approver_users
    || is_in gid name groups policy.approver_groups

-- A known user is let in under its name, may approve exactly if it is root, a listed user or in a
-- listed approver group, and may read exactly if it may approve or is in a listed reader group.
pub actor_for_exact :
    (uid gid : ℕ) (policy : Policy) (pw : ℕ → Option String) (groups : List Group) (name : String)
    → pw uid ≡ some name
    → actor_for uid gid policy pw groups
      ≡ ok (record {
        uid = uid;
        name = name;
        can_read =
            may_approve uid gid policy groups name || is_in gid name groups policy.reader_groups;
        can_approve = may_approve uid gid policy groups name;
      })
unfolding actor_for
actor_for_exact uid gid policy pw groups name known =
    let approver = intersects-groups_of gid name groups policy.approver_groups in
    let reader = intersects-groups_of gid name groups policy.reader_groups in
    rw (actor_for, known, approver, reader) (ground arith)
