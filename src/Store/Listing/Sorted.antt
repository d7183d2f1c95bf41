-- ===== src/Store/Listing/Sorted.antt =====
-- What the sorted queries return (roles/msp_broker/files/broker/store.py).
use msp_fleet_public.Base.{
  ℕ, zero, suc, ◌≤◌, pos, Bool, true, false, ◌&&◌, ◌≡◌, refl, ap, ◌∙◌, ◌⊎◌, inl, inr, List, [], ◌∷◌,
  ◌++◌, arith, length, all, if◌then◌else◌,
}
use msp_fleet_public.Store.Listing.{insert_by, order_by, limit, newest}
use msp_fleet_public.Store.Rows.{Row}

module _ {ℓ} {A : Type ℓ} where
  -- how many elements pass a test
  abbrev pub count : (A → Bool) → List A → ℕ
  count q [] = 0
  count q (a ∷ l) = if q a then suc (count q l) else count q l

  -- every element may stand in front of those behind it
  abbrev pub is_sorted : (A → A → Bool) → List A → Bool
  is_sorted before [] = true
  is_sorted before (a ∷ l) = all (before a) l && is_sorted before l

  module _ (before : A → A → Bool) where
    count-insert_by :
        (q : A → Bool) (a : A) (l : List A) → count q (insert_by before a l) ≡ count q (a ∷ l)
    unfolding insert_by
    count-insert_by q a [] = refl
    count-insert_by q a (b ∷ l) = ground (arith, count-insert_by q a l)

    -- an order in which any two elements compare
    module _ (total : (a b : A) → before a b ≡ false → before b a ≡ true)
        (trans : (a b c : A) → before a b ≡ true → before b c ≡ true → before a c ≡ true) where
      all_behind :
          (a b : A) (l : List A)
          → before a b ≡ true
          → all (before b) l ≡ true
          → all (before a) l ≡ true
      all_behind a b [] h k = refl
      all_behind a b (c ∷ l) h k = ground (arith, all_behind a b l, trans a b c)

      all-insert_by :
          (b a : A) (l : List A)
          → before b a ≡ true
          → all (before b) l ≡ true
          → all (before b) (insert_by before a l) ≡ true
      unfolding insert_by
      all-insert_by b a [] h k = ground arith
      all-insert_by b a (c ∷ l) h k = ground (arith, all-insert_by b a l)

      insert_by-sorted :
          (a : A) (l : List A)
          → is_sorted before l ≡ true
          → is_sorted before (insert_by before a l) ≡ true
      unfolding insert_by
      insert_by-sorted a [] h = refl
      insert_by-sorted a (b ∷ l) h =
          ground (arith, insert_by-sorted a l, all_behind a b l, all-insert_by b a l, total a b)

      pub order_by-sorted : (l : List A) → is_sorted before (order_by before l) ≡ true
      unfolding order_by
      order_by-sorted [] = refl
      order_by-sorted (a ∷ l) = insert_by-sorted a (order_by before l) (order_by-sorted l)

    -- The elements stay the same.
    pub count-order_by : (q : A → Bool) (l : List A) → count q (order_by before l) ≡ count q l
    unfolding order_by
    count-order_by q [] = refl
    count-order_by q (a ∷ l) =
        count-insert_by q a (order_by before l) ∙ ground (arith, count-order_by q l)

  one_more : {rest : List A} {m n : ℕ} → (rest ≡ []) ⊎ (m ≡ n) → (rest ≡ []) ⊎ (suc m ≡ suc n)
  one_more (inl e) = inl e
  one_more (inr e) = inr (ap suc e)

  -- A limit cuts a list in two.
  pub limit-cut :
      (n : ℕ) (l : List A)
      → (rest : List A) × (limit (pos n) l ++ rest ≡ l)
        × (length (limit (pos n) l) ≤ n)
        × ((rest ≡ []) ⊎ (length (limit (pos n) l) ≡ n))
  unfolding limit
  limit-cut zero [] = ([], refl, omega arith, inl refl)
  limit-cut (suc n) [] = ([], refl, omega arith, inl refl)
  limit-cut zero (a ∷ l) = (a ∷ l, refl, omega arith, inr refl)
  limit-cut (suc n) (a ∷ l) =
      let (rest, whole, size, full) = limit-cut n l in
      (rest, ap (λ (m : List A). a ∷ m) whole, omega (arith, size), one_more full)

-- The rows of a listing, those that it leaves out, and their order.
pub record Recent (n : ℕ) (t listed : List Row) : Type 0 where
  pub rest : List Row
  pub sorted : is_sorted newest (listed ++ rest) ≡ true
  pub same_rows : (q : Row → Bool) → count q (listed ++ rest) ≡ count q t
  pub size : length listed ≤ n
  pub full : (rest ≡ []) ⊎ (length listed ≡ n)
