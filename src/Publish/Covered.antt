-- ===== src/Publish/Covered.antt =====
-- What the export gate looks for (bin/publish-data.py).
use msp_fleet_public.Base.{
  String, Bool, true, ◌||◌, ◌≡◌, refl, ap, ◌∙◌, some, List, [], ◌∷◌, ◌++◌, ◌==◌, arith, eq_iff,
  eq_refl, any, contains, map, Bool-cases, inl, inr,
}
use msp_fleet_public.Publish.{
  Python, longer, by_length, word, fixed_patterns, address_patterns, patterns,
}
use msp_fleet_public.Publish.Collect.{Collected, add, union}
use msp_fleet_public.Store.Listing.{insert_by, order_by}
use msp_fleet_public.Value.{Value, lookup, truthy}

any-append : (q : String → Bool) (l m : List String) → any q (l ++ m) ≡ (any q l || any q m)
any-append q [] m = refl
any-append q (x ∷ l) m = ground (arith, any-append q l m)

any-insert_by :
    (q : String → Bool) (x : String) (l : List String)
    → any q (insert_by longer x l) ≡ (q x || any q l)
unfolding insert_by
any-insert_by q x [] = refl
any-insert_by q x (y ∷ l) = ground (arith, any-insert_by q x l)

any-by_length : (q : String → Bool) (l : List String) → any q (by_length l) ≡ any q l
unfolding by_length order_by
any-by_length q [] = refl
any-by_length q (x ∷ l) = any-insert_by q x (by_length l) ∙ ap (λ o. q x || o) (any-by_length q l)

pub contains-add :
    (x y : String) (s : List String) → contains y (add x s) ≡ ((x == y) || contains y s)
unfolding add
contains-add x y s = elim (Bool-cases (contains x s)) [
  | inl h ↦ elim (Bool-cases (x == y)) [
    | inl same ↦ rw (h, same) (rw ((eq_iff x y).0 same) at h)
    | inr other ↦ rw (h, other) refl
  ]
  | inr h ↦ rw (h, any-append (λ z. z == y) s (x ∷ [])) (ground arith)
]

contains-union :
    (s t : List String) (y : String) → contains y (union s t) ≡ (contains y s || contains y t)
unfolding union
contains-union s [] y = ground arith
contains-union s (x ∷ t) y = contains-union (add x s) t y ∙ ground (arith, contains-add x y s)

contains-map :
    (f : String → String) (name : String) (l : List String)
    → contains name l ≡ true
    → contains (f name) (map f l) ≡ true
contains-map f name [] h = cc
contains-map f name (x ∷ l) h = elim (Bool-cases (x == name)) [
  | inl same ↦ rw ((eq_iff x name).0 same, eq_refl (f name)) refl
  | inr other ↦ rw (contains-map f name l (ground arith)) (ground arith)
]

contains-address_patterns :
    (py : Python) (addrs : List (String × Value)) (h : String) (a : Value)
    → lookup h addrs ≡ some a
    → truthy a ≡ true
    → contains (word (py.str_of a)) (address_patterns py addrs) ≡ true
unfolding address_patterns
contains-address_patterns py [] h a found set = cc
contains-address_patterns py ((k, v) ∷ addrs) h a found set = elim (Bool-cases (k == h)) [
  | inl same ↦ let e : v ≡ a = ground arith in rw (e, set, eq_refl (word (py.str_of a))) refl
  | inr other ↦ let rest = contains-address_patterns py addrs h a (ground arith) set in ground arith
]

module _ (w : String) (l m n : List String) where
  in_middle : contains w m ≡ true → contains w (l ++ m ++ n) ≡ true
  in_middle h =
      rw (any-append (λ y. y == w) (l ++ m) n, any-append (λ y. y == w) l m, h) (ground arith)

  in_last : contains w n ≡ true → contains w (l ++ m ++ n) ≡ true
  in_last h =
      rw (any-append (λ y. y == w) (l ++ m) n, any-append (λ y. y == w) l m, h) (ground arith)

-- The gate looks for every host and every name that the scrub list replaces, as a whole word and
-- escaped.
pub patterns-cover :
    (py : Python) (c : Collected) (name : String)
    → (contains name c.hosts || contains name c.names) ≡ true
    → contains (word name) (patterns py c) ≡ true
unfolding patterns
patterns-cover py c name h =
    let listed : contains name (by_length (union c.hosts c.names)) ≡ true =
      any-by_length (λ y. y == name) (union c.hosts c.names)
      ∙ (contains-union c.hosts c.names name ∙ h) in
    in_middle (word name) fixed_patterns _ _ (contains-map word name _ listed)

-- It looks for every address that is set, too.
patterns-cover_address :
    (py : Python) (c : Collected) (h : String) (a : Value)
    → lookup h c.addrs ≡ some a
    → truthy a ≡ true
    → contains (word (py.str_of a)) (patterns py c) ≡ true
unfolding patterns
patterns-cover_address py c h a found set =
    in_last (word (py.str_of a)) fixed_patterns _ _
      (contains-address_patterns py c.addrs h a found set)
