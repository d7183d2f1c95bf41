-- ===== src/Store/Receipts.antt =====
-- The receipts and the inventory are keyed tables (roles/msp_broker/files/broker/store.py).
use msp_fleet_public.Base.{
  String, ◌≡◌, refl, Option, none, some, List, [], ◌∷◌, arith, ◌==◌, eq_iff, if◌then◌else◌,
}
use msp_fleet_public.Plan.{Target}
use msp_fleet_public.Store.{replace, add_receipt, get_receipt, inventory_upsert, inventory_get}
use msp_fleet_public.Store.Rows.{Receipt}
use msp_fleet_public.Value.{lookup}

lookup-replace :
    (id : String) (r : Receipt) (l : List (String × Receipt)) (j : String)
    → lookup j (replace (λ e. e.0) (id, r) l) ≡ (if id == j then some r else lookup j l)
unfolding replace
lookup-replace id r [] j = ground arith
lookup-replace id r ((k, q) ∷ l) j =
    ground (arith, lookup-replace id r l j, eq_iff id j, eq_iff k j, eq_iff k id)

-- A receipt that is added is found under its proposal, where it replaces an earlier one, and the
-- receipts of other proposals are found as before.
pub get_receipt-add_receipt :
    (id : String) (r : Receipt) (l : List (String × Receipt)) (j : String)
    → get_receipt (add_receipt id r l) j ≡ (if id == j then some r else get_receipt l j)
unfolding add_receipt get_receipt
get_receipt-add_receipt id r l j = lookup-replace id r l j

inventory_get-replace :
    (t : Target) (l : List Target) (j : String)
    → inventory_get (replace (λ u. u.id) t l) j ≡ (if t.id == j then some t else inventory_get l j)
unfolding inventory_get replace
inventory_get-replace t [] j = ground arith
inventory_get-replace t (u ∷ l) j =
    ground (arith, inventory_get-replace t l j, eq_iff t.id j, eq_iff u.id j, eq_iff u.id t.id)

-- the first of two values that is there
abbrev pub or_else : Option Target → Option Target → Option Target
or_else none o = o
or_else (some t) o = some t

-- the last entry with the identifier
abbrev pub latest : List Target → String → Option Target
latest [] j = none
latest (t ∷ ts) j = or_else (latest ts j) (if t.id == j then some t else none)

-- After an update of the inventory an identifier leads to the last given entry that has it, and to
-- what it led to before if none has.
pub inventory_get-inventory_upsert :
    (ts l : List Target) (j : String)
    → inventory_get (inventory_upsert ts l) j ≡ or_else (latest ts j) (inventory_get l j)
unfolding inventory_upsert
inventory_get-inventory_upsert [] l j = refl
inventory_get-inventory_upsert (t ∷ ts) l j = ground (
  arith,
  inventory_get-inventory_upsert ts (replace (λ u. u.id) t l) j,
  inventory_get-replace t l j,
)
