-- ===== src/Store/Moves.antt =====
-- The life of a proposal: which states may follow which, what of a row is frozen, and tables whose
-- rows have moved on that way.
use msp_fleet_public.Base.{
  ℕ, String, Bool, true, false, ◌≡◌, refl, sym, ap, ◌∙◌, none, some, [], ◌++◌, ◌∷◌, arith, ◌==◌,
  eq_iff, eq_refl, Bool-cases, inl, inr,
}
use msp_fleet_public.Store.{Table, get, update, expire_stale, is_stale, expire_row}
use msp_fleet_public.Store.Lookups.{on_some, get-update, get-expire_stale, get-append_some}
use msp_fleet_public.Store.Rows.{
  Row, Status, proposed, approved, expired, executing, succeeded, failed, is_proposed,
}

-- The states in which a proposal is decided for good.
unfoldable pub is_final : Status → Bool
is_final proposed = false
is_final approved = false
is_final executing = false
is_final _ = true

-- The states that may come after an approval has been given.
abbrev after_approval : Status → Bool
after_approval executing = true
after_approval expired = true
after_approval succeeded = true
after_approval failed = true
after_approval _ = false

abbrev after_start : Status → Bool
after_start succeeded = true
after_start failed = true
after_start _ = false

-- The strict order of the states.
unfoldable pub leads : Status → Status → Bool
leads proposed proposed = false
leads proposed _ = true
leads approved s = after_approval s
leads executing s = after_start s
leads _ _ = false

-- A row with the columns that decisions write put back to those of a new proposal. What is left are
-- the frozen columns.
unfoldable pub frozen : Row → Row
frozen r = record r {
  status = proposed;
  approved_at = none;
  approver = none;
  execution_started_at = none;
  execution_finished_at = none;
  result_rc = none;
  result_summary = none;
  post_state = none;
}

-- `r'` is `r` itself, or has the same frozen columns and a state that `r` leads to.
pub data Follows (r r' : Row) : Type 0 where
  same : r' ≡ r → Follows r r'
  next : frozen r' ≡ frozen r → leads r.status r'.status ≡ true → Follows r r'

leads_trans : (a b c : Status) → leads a b ≡ true → leads b c ≡ true → leads a c ≡ true
unfolding leads
leads_trans a b c h k = ground arith

pub Follows-trans : (a b c : Row) → Follows a b → Follows b c → Follows a c
Follows-trans a b c (same p) (same q) = same (q ∙ p)
Follows-trans a b c (same p) (next f l) =
    next (f ∙ ap frozen p) (rw (ap (λ (r : Row). leads r.status c.status) (sym p)) l)
Follows-trans a b c (next f l) (same q) =
    next (ap frozen q ∙ f) (rw (ap (λ (r : Row). leads a.status r.status) q) l)
Follows-trans a b c (next f l) (next g m) =
    next (g ∙ f) (leads_trans a.status b.status c.status l m)

-- A decided row stays as it is.
pub Follows-final : (r r' : Row) → Follows r r' → is_final r.status ≡ true → r' ≡ r
unfolding is_final leads
Follows-final r r' (same p) h = p
Follows-final r r' (next f l) h = ground arith

-- Every row of the first table is in the second, moved on.
pub record Moves (t t' : Table) : Type 0 where
  pub at :
      (id : String) (r : Row)
      → get t id ≡ some r
      → (r' : Row) × (get t' id ≡ some r') × Follows r r'

pub Moves-refl : (t : Table) → Moves t t
Moves-refl t = record { at = λ id r h. (r, h, same refl) }

pub Moves-trans : (t u v : Table) → Moves t u → Moves u v → Moves t v
Moves-trans t u v m n = record {
  at = λ id r h.
      let (r', h', f) = m.at id r h in
      let (r'', h'', g) = n.at id r' h' in (r'', h'', Follows-trans r r' r'' f g);
}

expire_row-Follows : (n : ℕ) (r : Row) → Follows r (expire_row n r)
unfolding expire_row is_proposed frozen leads
expire_row-Follows n r = elim (Bool-cases (is_stale n r)) [
  | inl h ↦ rw h (next refl (ground arith))
  | inr h ↦ rw h (same refl)
]

pub Moves-expire_stale : (n : ℕ) (t : Table) → Moves t (expire_stale n t)
Moves-expire_stale n t = record {
  at = λ id r h. (
    expire_row n r,
    get-expire_stale n t id ∙ ap (on_some (expire_row n)) h,
    expire_row-Follows n r,
  );
}

module _ (id : String) (f : Row → Row) (t : Table)
    (keys : (r : Row) → (f r).proposal_id ≡ r.proposal_id)
    (follows : (r : Row) → get t id ≡ some r → Follows r (f r)) where
  pub Moves-update : Moves t (update id f t)
  Moves-update = record {
    at = λ j r h. elim (Bool-cases (id == j)) [
      | inl here ↦
          let e = (eq_iff id j).0 here in
          (f r, ground (arith, get-update id f t j keys), follows r (rw e h))
      | inr there ↦ (r, ground (arith, get-update id f t j keys), same refl)
    ];
  }

pub Moves-append : (r : Row) (t : Table) → Moves t (t ++ r ∷ [])
Moves-append r t = record { at = λ j q h. (q, get-append_some t r j q h, same refl) }

found_status :
    (t : Table) (id : String) (p r : Row) (st : Status)
    → get t id ≡ some p
    → p.status ≡ st
    → get t id ≡ some r
    → r.status ≡ st
found_status t id p r st h e k = cc

-- A write of the columns that decisions write, to a row whose state leads to the new one.
module _ (id : String) (f : Row → Row) (st st' : Status)
    (keys : (r : Row) → (f r).proposal_id ≡ r.proposal_id) (forward : leads st st' ≡ true)
    (keeps : (r : Row) → frozen (f r) ≡ frozen r) (sets : (r : Row) → (f r).status ≡ st') where
  written_Follows :
      (t : Table) (p r : Row)
      → get t id ≡ some p
      → p.status ≡ st
      → get t id ≡ some r
      → Follows r (f r)
  written_Follows t p r h e k = next (keeps r) (rw (sets r, found_status t id p r st h e k) forward)

  pub Moves-write :
      (t : Table) (p : Row) → get t id ≡ some p → p.status ≡ st → Moves t (update id f t)
  Moves-write t p h e = Moves-update id f t keys (λ r. written_Follows t p r h e)

pub found-update :
    (id : String) (f : Row → Row) (t : Table) (p : Row)
    → ((r : Row) → (f r).proposal_id ≡ r.proposal_id)
    → get t id ≡ some p
    → get (update id f t) id ≡ some (f p)
found-update id f t p keys h = rw (get-update id f t id keys, eq_refl, h)
