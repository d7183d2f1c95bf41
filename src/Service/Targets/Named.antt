-- ===== src/Service/Targets/Named.antt =====
-- The ways to name a target of the inventory, as relations, and what `inventory_get` and
-- `inventory_by_name` (roles/msp_broker/files/broker/store.py) find by them.
use msp_fleet_public.Base.{
  String, false, ◌≡◌, ◌≢◌, inl, inr, refl, sym, subst, none, some, List, [], ◌∷◌, arith, ◌==◌,
  eq_iff, Bool-cases,
}
use msp_fleet_public.Plan.{Target}
use msp_fleet_public.Store.{inventory_get, inventory_by_name}

module _ (key : Target → String) (ref : String) where
  -- No entry has the text as its key.
  pub data NoneHas : List Target → Type 0 where
    at_end : NoneHas []
    not_first : (u : Target) (l : List Target) → key u ≢ ref → NoneHas l → NoneHas (u ∷ l)

  -- The first entry that has it as its key.
  pub data FirstHas (t : Target) : List Target → Type 0 where
    here : (l : List Target) → key t ≡ ref → FirstHas t (t ∷ l)
    behind : (u : Target) (l : List Target) → key u ≢ ref → FirstHas t l → FirstHas t (u ∷ l)

  -- The only entry that has it as its key.
  pub data OnlyHas (t : Target) : List Target → Type 0 where
    this : (l : List Target) → key t ≡ ref → NoneHas l → OnlyHas t (t ∷ l)
    later : (u : Target) (l : List Target) → key u ≢ ref → OnlyHas t l → OnlyHas t (u ∷ l)

differ : (x y : String) → x == y ≡ false → x ≢ y
differ x y e h = let k = (eq_iff x y).1 h in cc

pub differ_test : (x y : String) → x ≢ y → x == y ≡ false
differ_test x y n = ground (arith, eq_iff x y)

module _ (ref : String) where
  pub unlisted : (l : List Target) → inventory_get l ref ≡ none → NoneHas (λ t. t.id) ref l
  unfolding inventory_get
  unlisted [] h = at_end
  unlisted (u ∷ l) h = not_first u l (differ u.id ref (ground arith)) (unlisted l (ground arith))

  pub unlisted_of : (l : List Target) → NoneHas (λ t. t.id) ref l → inventory_get l ref ≡ none
  unfolding inventory_get
  unlisted_of _ at_end = refl
  unlisted_of _ (not_first u l n rest) = rw (differ_test u.id ref n, unlisted_of l rest) refl

  pub unnamed : (l : List Target) → inventory_by_name l ref ≡ [] → NoneHas (λ t. t.name) ref l
  unfolding inventory_by_name
  unnamed [] h = at_end
  unnamed (u ∷ l) h = not_first u l (differ u.name ref (ground arith)) (unnamed l (ground arith))

  pub unnamed_of : (l : List Target) → NoneHas (λ t. t.name) ref l → inventory_by_name l ref ≡ []
  unfolding inventory_by_name
  unnamed_of _ at_end = refl
  unnamed_of _ (not_first u l n rest) = rw (differ_test u.name ref n, unnamed_of l rest) refl

  module _ (t : Target) where
    pub listed : (l : List Target) → inventory_get l ref ≡ some t → FirstHas (λ t. t.id) ref t l
    unfolding inventory_get
    listed [] h = cc
    listed (u ∷ l) h = elim (Bool-cases (u.id == ref)) [
      | inl e ↦
          let same : u ≡ t = ground arith in
          subst (λ v. FirstHas (λ t. t.id) ref t (v ∷ l)) (sym same)
            (here l (subst (λ v. v.id ≡ ref) same ((eq_iff u.id ref).0 e)))
      | inr e ↦ behind u l (differ u.id ref e) (listed l (ground arith))
    ]

    pub listed_of : (l : List Target) → FirstHas (λ t. t.id) ref t l → inventory_get l ref ≡ some t
    unfolding inventory_get
    listed_of _ (here l e) = rw ((eq_iff t.id ref).1 e) refl
    listed_of _ (behind u l n rest) = rw (differ_test u.id ref n, listed_of l rest) refl

    pub named : (l : List Target) → inventory_by_name l ref ≡ t ∷ [] → OnlyHas (λ t. t.name) ref t l
    unfolding inventory_by_name
    named [] h = cc
    named (u ∷ l) h = elim (Bool-cases (u.name == ref)) [
      | inl e ↦
          let same : u ≡ t = ground arith in
          let rest : inventory_by_name l ref ≡ [] = ground arith in
          subst (λ v. OnlyHas (λ t. t.name) ref t (v ∷ l)) (sym same)
            (this l (subst (λ v. v.name ≡ ref) same ((eq_iff u.name ref).0 e)) (unnamed l rest))
      | inr e ↦ later u l (differ u.name ref e) (named l (ground arith))
    ]

    pub named_of :
        (l : List Target) → OnlyHas (λ t. t.name) ref t l → inventory_by_name l ref ≡ t ∷ []
    unfolding inventory_by_name
    named_of _ (this l e rest) = rw ((eq_iff t.name ref).1 e, unnamed_of l rest) refl
    named_of _ (later u l n rest) = rw (differ_test u.name ref n, named_of l rest) refl

-- The two ways to name a target: its identifier, or a name that no identifier is and that exactly
-- one entry has.
pub data IsNamed (inventory : List Target) (ref : String) (t : Target) : Type 0 where
  by_id : FirstHas (λ u. u.id) ref t inventory → IsNamed inventory ref t
  by_name :
      NoneHas (λ u. u.id) ref inventory
      → OnlyHas (λ u. u.name) ref t inventory
      → IsNamed inventory ref t
