-- ===== src/Store/Listing.antt =====
-- The sorted queries of roles/msp_broker/files/broker/store.py.
pub mod Sorted
use Prim.Native.Nat.{Ordering}
use Prim.Native.String.{compare}
use msp_fleet_public.Base.{
  zero, suc, ℤ, pos, negsuc, Bool, true, false, List, [], ◌∷◌, leb, if◌then◌else◌,
}
use msp_fleet_public.Plan.{Target}
use msp_fleet_public.Store.Rows.{Row, Status, status_eq}

-- `ORDER BY key`, by insertion: `before a b` holds where `a` may stand in front of `b`
unfoldable pub insert_by {ℓ} : {A : Type ℓ} → (A → A → Bool) → A → List A → List A
insert_by before a [] = a ∷ []
insert_by before a (b ∷ l) = if before a b then a ∷ b ∷ l else b ∷ insert_by before a l

unfoldable pub order_by {ℓ} : {A : Type ℓ} → (A → A → Bool) → List A → List A
unfolding insert_by
order_by before [] = []
order_by before (a ∷ l) = insert_by before a (order_by before l)

-- `LIMIT ?`: a negative limit is none
unfoldable pub limit {ℓ} : {A : Type ℓ} → ℤ → List A → List A
limit (negsuc n) l = l
limit (pos n) [] = []
limit (pos zero) (a ∷ l) = []
limit (pos (suc n)) (a ∷ l) = a ∷ limit (pos n) l

abbrev pub newest : Row → Row → Bool
newest a b = leb b.created_at a.created_at

unfoldable pub list_recent : ℤ → List Row → List Row
unfolding order_by limit
list_recent n t = limit n (order_by newest t)

-- `WHERE status = ?`
unfoldable pub with_status : Status → List Row → List Row
with_status s [] = []
with_status s (r ∷ t) =
    let rest = with_status s t in if status_eq s r.status then r ∷ rest else rest

unfoldable pub list_by_status : Status → ℤ → List Row → List Row
unfolding with_status order_by limit
list_by_status s n t = limit n (order_by newest (with_status s t))

abbrev pub by_id : Target → Target → Bool
by_id a b = elim (compare a.id b.id) [ Ordering.gt ↦ false | _ ↦ true ]

unfoldable pub inventory_list : List Target → List Target
unfolding order_by
inventory_list l = order_by by_id l
