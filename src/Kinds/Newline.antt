-- ===== src/Kinds/Newline.antt =====
-- What the patterns of the kinds "unit" and "pool" accept (roles/msp_broker/files/broker/model.py).
use msp_fleet_public.Base.{
  ℕ, ◌≤◌, String, Bool, true, false, ◌≡◌, refl, sym, subst, List, [], ◌∷◌, ◌++◌, ◌⊎◌, ◌↔◌, inl, inr,
  arith, ◌||◌, Bool-cases, nat_eq, nat_eq_iff, all, length,
}
use msp_fleet_public.Kinds.{
  in_class, class_match, drop_newline, alnum, pool_char, unit_char, codes, v_text, valid, unit,
  pool,
}
use msp_fleet_public.Value.{Value, str}

or_true : (b : Bool) → b || true ≡ true
or_true b = ground arith

false_or : {b c : Bool} → b ≡ false → b || c ≡ true → c ≡ true
false_or e h = ground arith

drop_newline-snoc : (t : List ℕ) → drop_newline (t ++ b'\n' ∷ []) ≡ t
unfolding drop_newline
drop_newline-snoc [] = refl
drop_newline-snoc (c ∷ []) = refl
drop_newline-snoc (c ∷ d ∷ t) = rw (drop_newline-snoc (d ∷ t)) refl

drop_newline-cases : (s : List ℕ) → (drop_newline s ≡ s) ⊎ (s ≡ drop_newline s ++ b'\n' ∷ [])
unfolding drop_newline
drop_newline-cases [] = inl refl
drop_newline-cases (c ∷ []) = elim (Bool-cases (nat_eq c b'\n')) [
  | inl e ↦ inr (rw (e, (nat_eq_iff c b'\n').0 e) refl)
  | inr e ↦ inl (rw e refl)
]
drop_newline-cases (c ∷ d ∷ s) = elim (drop_newline-cases (d ∷ s)) [
  | inl e ↦ inl (rw e refl)
  | inr e ↦ inr (rw (← e) refl)
]

matched :
    (cls : ℕ → Bool) (s : List ℕ)
    → class_match cls s ≡ true
    → (in_class cls s ≡ true) ⊎ ((t : List ℕ) × (s ≡ t ++ b'\n' ∷ []) × (in_class cls t ≡ true))
unfolding class_match
matched cls s h = elim (Bool-cases (in_class cls s)) [
  | inl e ↦ inl e
  | inr e ↦ elim (drop_newline-cases s) [
    | inl same ↦ inl (rw (← same) (false_or e h))
    | inr cut ↦ inr (drop_newline s, cut, false_or e h)
  ]
]

class_match_of :
    (cls : ℕ → Bool) (t : List ℕ) → in_class cls t ≡ true → class_match cls (t ++ b'\n' ∷ []) ≡ true
unfolding class_match
class_match_of cls t e = rw (drop_newline-snoc t, e) (or_true (in_class cls (t ++ b'\n' ∷ [])))

-- The characters of the three classes, by their ranges.
abbrev pub IsAlnum : ℕ → Type 0
IsAlnum c = ((b'A' ≤ c) × (c ≤ b'Z')) ⊎ (((b'a' ≤ c) × (c ≤ b'z')) ⊎ ((b'0' ≤ c) × (c ≤ b'9')))

abbrev pub IsPoolChar : ℕ → Type 0
IsPoolChar c = IsAlnum c ⊎ ((c ≡ b'.') ⊎ ((c ≡ b'_') ⊎ ((c ≡ b':') ⊎ (c ≡ b'-'))))

abbrev pub IsUnitChar : ℕ → Type 0
IsUnitChar c = IsPoolChar c ⊎ (c ≡ b'@')

abbrev pub All : (ℕ → Type 0) → List ℕ → Type 0
All P [] = Unit
All P (c ∷ s) = P c × All P s

-- A name of 1 to 64 characters, and such a name with one newline behind it.
pub record IsName (P : ℕ → Type 0) (s : List ℕ) : Type 0 where
  pub name : List ℕ
  pub spelled : (s ≡ name) ⊎ (s ≡ name ++ b'\n' ∷ [])
  pub not_empty : 1 ≤ length name
  pub bounded : length name ≤ 64
  pub chars : All P name

module _ (cls : ℕ → Bool) (P : ℕ → Type 0) (iff : (c : ℕ) → (cls c ≡ true) ↔ P c) where
  all-All : (s : List ℕ) → (all cls s ≡ true) ↔ All P s
  all-All [] = (λ h. tt, λ h. refl)
  all-All (c ∷ s) = (
    λ h. ((iff c).0 (ground arith), (all-All s).0 (ground arith)),
    λ h. let first = (iff c).1 h.0 in let rest = (all-All s).1 h.1 in ground arith,
  )

  named_by : (s t : List ℕ) → (s ≡ t) ⊎ (s ≡ t ++ b'\n' ∷ []) → in_class cls t ≡ true → IsName P s
  named_by s t e h = record {
    name = t;
    spelled = e;
    not_empty = ground arith;
    bounded = ground arith;
    chars = (all-All t).0 (ground arith);
  }

  IsName-in_class : (s : List ℕ) (n : IsName P s) → in_class cls n.name ≡ true
  IsName-in_class s n =
      let a = n.not_empty in let b = n.bounded in let c = (all-All n.name).1 n.chars in ground arith

  class_match-IsName : (s : List ℕ) → (class_match cls s ≡ true) ↔ IsName P s
  unfolding class_match
  class_match-IsName s = (
    λ h. elim (matched cls s h) [
      | inl e ↦ named_by s s (inl refl) e
      | inr (t, e, f) ↦ named_by s t (inr e) f
    ],
    λ n. elim n.spelled [
      | inl e ↦ rw (e, IsName-in_class s n) refl
      | inr e ↦ rw e (class_match_of cls n.name (IsName-in_class s n))
    ],
  )

  valid_text :
      (v : Value)
      → (v_text (class_match cls) v ≡ true) ↔ ((s : String) × (v ≡ str s) × IsName P (codes s))
  valid_text (str s) = (
    λ h. (s, refl, (class_match-IsName (codes s)).0 h),
    λ (t, e, n).
        subst (λ x. v_text (class_match cls) x ≡ true) (sym e) ((class_match-IsName (codes t)).1 n),
  )
  valid_text v = (λ h. cc, λ (t, e, n). cc)

alnum_iff : (c : ℕ) → (alnum c ≡ true) ↔ IsAlnum c
alnum_iff c = ground arith

pool_char_iff : (c : ℕ) → (pool_char c ≡ true) ↔ IsPoolChar c
pool_char_iff c = ground arith

unit_char_iff : (c : ℕ) → (unit_char c ≡ true) ↔ IsUnitChar c
unit_char_iff c = ground arith

-- A value is a valid unit exactly when it is a text of 1 to 64 letters, digits, dots, underscores,
-- colons, hyphens and at signs, or such a text followed by one newline; a valid pool likewise, but
-- without at signs.
pub valid_names_exact :
    (v : Value)
    → ((valid unit v ≡ true) ↔ ((s : String) × (v ≡ str s) × IsName IsUnitChar (codes s)))
      × ((valid pool v ≡ true) ↔ ((s : String) × (v ≡ str s) × IsName IsPoolChar (codes s)))
unfolding valid
valid_names_exact v = (
  valid_text unit_char IsUnitChar unit_char_iff v,
  valid_text pool_char IsPoolChar pool_char_iff v,
)
