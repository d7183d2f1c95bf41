-- ===== src/Store/Replay.antt =====
-- The proposals table as a map from identifiers to rows (roles/msp_broker/files/broker/store.py): the
-- specification of the writes, which forgets the order of the rows.
use msp_fleet_public.Base.{
  ℕ, String, true, false, ◌≡◌, refl, ap, ◌∙◌, Option, none, some, List, [], ◌∷◌, ◌++◌, arith, ◌==◌,
  eq_iff, any, Bool-cases, inl, inr, if◌then◌else◌,
}
use msp_fleet_public.Failure.{Result, ok, err}
use msp_fleet_public.Store.{Table, get, insert_proposal, update, expire_stale, expire_row}
use msp_fleet_public.Store.Lookups.{on_some, get-update, get-expire_stale}
use msp_fleet_public.Store.Rows.{Row}

-- A write: an insertion, an update of columns other than the key, and the expiry at a time.
pub data Write : Type 0 where
  insertion : Row → Write
  change : String → (f : Row → Row) → ((r : Row) → (f r).proposal_id ≡ r.proposal_id) → Write
  expiry : ℕ → Write

-- The table after an insertion; an IntegrityError leaves it as it is.
abbrev kept_or : Table → Result Table → Table
kept_or t (ok u) = u
kept_or t (err e) = t

abbrev pub write : Write → Table → Table
write (insertion r) t = kept_or t (insert_proposal r t)
write (change id f keys) t = update id f t
write (expiry now) t = expire_stale now t

unfoldable pub replay : List Write → Table → Table
replay [] t = t
replay (x ∷ xs) t = replay xs (write x t)

-- The same writes on a map.
abbrev pub Rows : Type 0
Rows = String → Option Row

abbrev or_row : Option Row → Row → Option Row
or_row none r = some r
or_row (some q) r = some q

abbrev pub spec_write : Write → Rows → Rows
spec_write (insertion r) m j = if r.proposal_id == j then or_row (m j) r else m j
spec_write (change id f keys) m j = if id == j then on_some f (m j) else m j
spec_write (expiry now) m j = on_some (expire_row now) (m j)

unfoldable pub spec_replay : List Write → Rows → Rows
spec_replay [] m = m
spec_replay (x ∷ xs) m = spec_replay xs (spec_write x m)

is_there :
    (t : Table) (id : String)
    → any (λ q. q.proposal_id == id) t ≡ true
    → (q : Row) × (get t id ≡ some q)
unfolding get
is_there [] id h = cc
is_there (p ∷ t) id h = elim (Bool-cases (p.proposal_id == id)) [
  | inl e ↦ (p, rw e refl)
  | inr e ↦ let (q, found) = is_there t id (ground arith) in (q, rw e found)
]

get-append :
    (t : Table) (r : Row) (j : String)
    → any (λ q. q.proposal_id == r.proposal_id) t ≡ false
    → get (t ++ r ∷ []) j ≡ (if r.proposal_id == j then or_row (get t j) r else get t j)
unfolding get
get-append [] r j h = ground arith
get-append (p ∷ t) r j h = ground (
  arith,
  get-append t r j,
  eq_iff p.proposal_id j,
  eq_iff r.proposal_id j,
  eq_iff p.proposal_id r.proposal_id,
)

get-insert_proposal :
    (r : Row) (t : Table) (j : String)
    → get (kept_or t (insert_proposal r t)) j
      ≡ (if r.proposal_id == j then or_row (get t j) r else get t j)
unfolding insert_proposal
get-insert_proposal r t j = elim (Bool-cases (any (λ q. q.proposal_id == r.proposal_id) t)) [
  | inl e ↦
      let (q, found) = is_there t r.proposal_id e in rw e (ground (arith, eq_iff r.proposal_id j))
  | inr e ↦ rw e (get-append t r j e)
]

get-write : (x : Write) (t : Table) (j : String) → get (write x t) j ≡ spec_write x (get t) j
get-write (insertion r) t j = get-insert_proposal r t j
get-write (change id f keys) t j = get-update id f t j keys
get-write (expiry now) t j = get-expire_stale now t j

-- Whatever is written, in any order: the rows that are found under each identifier are those of a
-- map on which the same writes are made. An insertion under an identifier that is taken changes
-- nothing, and an update reaches the row of its identifier and no other.
pub get-replay :
    (xs : List Write) (t : Table) (j : String) → get (replay xs t) j ≡ spec_replay xs (get t) j
unfolding replay spec_replay
get-replay [] t j = refl
get-replay (x ∷ xs) t j =
    get-replay xs (write x t) j ∙ ap (λ (m : Rows). spec_replay xs m j) (λ i k. get-write x t k i)
