-- ===== src/Store/Lookups.antt =====
-- What `get` finds after each write to the proposals.
use msp_fleet_public.Base.{
  ℕ, String, false, ◌≡◌, refl, Option, none, some, [], ◌∷◌, ◌++◌, arith, ◌==◌, eq_iff, eq_refl, any,
  if◌then◌else◌,
}
use msp_fleet_public.Store.{Table, get, update, expire_stale, expire_row}
use msp_fleet_public.Store.Rows.{Row}

abbrev pub on_some : {A : Type 0} → (A → A) → Option A → Option A
on_some f none = none
on_some f (some a) = some (f a)

-- An update reaches the row with its key and no other.
pub get-update :
    (id : String) (f : Row → Row) (t : Table) (j : String)
    → ((r : Row) → (f r).proposal_id ≡ r.proposal_id)
    → get (update id f t) j ≡ (if id == j then on_some f (get t j) else get t j)
unfolding get update
get-update id f [] j keys = ground arith
get-update id f (r ∷ t) j keys = ground (
  arith,
  get-update id f t j keys,
  keys r,
  eq_iff r.proposal_id id,
  eq_iff r.proposal_id j,
  eq_iff id j,
  eq_iff (f r).proposal_id j,
)

pub get-expire_stale :
    (n : ℕ) (t : Table) (j : String) → get (expire_stale n t) j ≡ on_some (expire_row n) (get t j)
unfolding get expire_stale
get-expire_stale n [] j = refl
get-expire_stale n (r ∷ t) j = ground (arith, get-expire_stale n t j)

-- An insertion leaves the rows that are there.
pub get-append_some :
    (t : Table) (r : Row) (j : String) (q : Row) → get t j ≡ some q → get (t ++ r ∷ []) j ≡ some q
unfolding get
get-append_some [] r j q h = cc
get-append_some (p ∷ t) r j q h = ground (arith, get-append_some t r j q)

-- An insertion under a new key adds its row.
pub get-append_none :
    (t : Table) (r : Row) → get t r.proposal_id ≡ none → get (t ++ r ∷ []) r.proposal_id ≡ some r
unfolding get
get-append_none [] r h = rw eq_refl
get-append_none (p ∷ t) r h = ground (arith, get-append_none t r)

-- A key that no row has is not found.
pub get-eq-none :
    (t : Table) (id : String) → any (λ q. q.proposal_id == id) t ≡ false → get t id ≡ none
unfolding get
get-eq-none [] id h = refl
get-eq-none (p ∷ t) id h = ground (arith, get-eq-none t id)

-- The key of a row that is found.
pub proposal_id-get : (t : Table) (id : String) (r : Row) → get t id ≡ some r → r.proposal_id ≡ id
unfolding get
proposal_id-get [] id r h = cc
proposal_id-get (p ∷ t) id r h = ground (arith, proposal_id-get t id r, eq_iff p.proposal_id id)
