-- ===== src/Store.antt =====
-- The broker's database (roles/msp_broker/files/broker/store.py): the tables, and the operations of
-- `Store` as functions on them. Times are the seconds since the epoch: the texts of the source have
-- one fixed format, whose order as texts is the order of the times.
pub mod Rows
pub mod Listing
pub mod Lookups
pub mod Columns
pub mod Moves
pub mod Receipts
pub mod Replay
use msp_fleet_public.Base.{
  ℕ, String, Bool, true, false, ◌&&◌, ◌+◌, Option, none, some, List, [], ◌∷◌, ◌++◌, ◌==◌, leb, map,
  any, if◌then◌else◌,
}
use msp_fleet_public.Failure.{Result, ok, err, store_error}
use msp_fleet_public.Plan.{Target}
use msp_fleet_public.Store.Rows.{Row, Receipt, Status, is_proposed, expired}
use msp_fleet_public.Value.{lookup}

abbrev pub Table : Type 0
Table = List Row

-- `get`: the row with the given primary key
unfoldable pub get : Table → String → Option Row
get [] id = none
get (r ∷ t) id = if r.proposal_id == id then some r else get t id

-- `insert_proposal`: the primary key is unique, and an IntegrityError becomes a StoreError
unfoldable pub insert_proposal : Row → Table → Result Table
insert_proposal r t =
    if any (λ q. q.proposal_id == r.proposal_id) t then err store_error else ok (t ++ r ∷ [])

-- `update`: the function sets the named columns
unfoldable pub update : String → (Row → Row) → Table → Table
update id f [] = []
update id f (r ∷ t) = (if r.proposal_id == id then f r else r) ∷ update id f t

-- `status = 'PROPOSED' AND expires_at <= now`
abbrev pub is_stale : ℕ → Row → Bool
is_stale now r = is_proposed r.status && leb r.expires_at now

unfoldable pub expire_row : ℕ → Row → Row
expire_row now r = if is_stale now r then record r { status = expired } else r

-- `expire_stale`: the table after it
unfoldable pub expire_stale : ℕ → Table → Table
unfolding expire_row
expire_stale now t = map (expire_row now) t

-- `expire_stale`: the number of rows changed
unfoldable pub expired_count : ℕ → Table → ℕ
expired_count now [] = 0
expired_count now (r ∷ t) = if is_stale now r then 1 + expired_count now t else expired_count now t

-- `INSERT OR REPLACE` of one entry, by its key
unfoldable pub replace {ℓ} : {V : Type ℓ} → (V → String) → V → List V → List V
replace key v [] = v ∷ []
replace key v (w ∷ l) = if key w == key v then replace key v l else w ∷ replace key v l

unfoldable pub add_receipt : String → Receipt → List (String × Receipt) → List (String × Receipt)
unfolding replace
add_receipt id receipt l = replace (λ e. e.0) (id, receipt) l

unfoldable pub get_receipt : List (String × Receipt) → String → Option Receipt
get_receipt l id = lookup id l

unfoldable pub inventory_upsert : List Target → List Target → List Target
unfolding replace
inventory_upsert [] l = l
inventory_upsert (e ∷ entries) l = inventory_upsert entries (replace (λ t. t.id) e l)

unfoldable pub inventory_get : List Target → String → Option Target
inventory_get [] id = none
inventory_get (t ∷ l) id = if t.id == id then some t else inventory_get l id

unfoldable pub inventory_by_name : List Target → String → List Target
inventory_by_name [] name = []
inventory_by_name (t ∷ l) name =
    if t.name == name then t ∷ inventory_by_name l name else inventory_by_name l name
