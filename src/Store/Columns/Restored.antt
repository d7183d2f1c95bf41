-- ===== src/Store/Columns/Restored.antt =====
-- What is written to the JSON columns is read back (roles/msp_broker/files/broker/store.py).
use msp_fleet_public.Base.{
  String, Bool, true, not, ◌&&◌, ◌≡◌, refl, ◌∙◌, Option, none, some, List, [], ◌∷◌, ◌==◌, eq_iff,
  eq_refl, arith, contains, if◌then◌else◌,
}
use msp_fleet_public.Failure.{ok}
use msp_fleet_public.Store.Columns.{
  Dict, json_fields, encode_cell, encode_fields, encode, decode_cell, decode_fields, row,
}
use msp_fleet_public.Value.{Value, null, str, lookup, assign}

lookup-assign :
    (k field : String) (v : Value) (d : Dict)
    → lookup k (assign field v d) ≡ (if field == k then some v else lookup k d)
unfolding assign
lookup-assign k field v [] = refl
lookup-assign k field v ((j, u) ∷ d) =
    ground (arith, lookup-assign k field v d, eq_iff j field, eq_iff j k, eq_iff field k)

-- No name stands twice.
abbrev pub are_distinct : List String → Bool
are_distinct [] = true
are_distinct (f ∷ fs) = not (contains f fs) && are_distinct fs

module _ (dumps : Value → String) where
  -- what `_encode` makes of a cell
  abbrev cell : Option Value → Option Value
  cell none = none
  cell (some null) = some null
  cell (some v) = some (str (dumps v))

  lookup-encode_cell :
      (k field : String) (o : Option Value) (d : Dict)
      → lookup field d ≡ o
      → lookup k (encode_cell dumps field o d)
        ≡ (if field == k then cell (lookup k d) else lookup k d)
  lookup-encode_cell k field none d e = ground (arith, eq_iff field k)
  lookup-encode_cell k field (some null) d e = ground (arith, eq_iff field k)
  lookup-encode_cell k field (some v) d e =
      ground (arith, eq_iff field k, lookup-assign k field (str (dumps v)) d)

  lookup-encode_fields :
      (k : String) (fs : List String) (d : Dict)
      → are_distinct fs ≡ true
      → lookup k (encode_fields dumps fs d)
        ≡ (if contains k fs then cell (lookup k d) else lookup k d)
  unfolding encode_fields
  lookup-encode_fields k [] d h = refl
  lookup-encode_fields k (f ∷ fs) d h = ground (
    arith,
    lookup-encode_fields k fs (encode_cell dumps f (lookup f d) d),
    lookup-encode_cell k f (lookup f d) d,
    eq_iff f k,
  )

  module _ (loads : String → Option Value) where
    -- Values that are decoded as they were encoded.
    abbrev IsRead : Option Value → Type 0
    IsRead o = (v : Value) → o ≡ some v → loads (dumps v) ≡ some v

    decode_cell-restores :
        (f : String) (o : Option Value) (t d : Dict)
        → lookup f t ≡ o
        → lookup f d ≡ cell o
        → IsRead o
        → (d' : Dict) × (decode_cell loads f (lookup f d) d ≡ ok d')
          × ((k : String) → lookup k d' ≡ (if f == k then lookup k t else lookup k d))
    decode_cell-restores f none t d e h r = (d, ground arith, λ k. ground (arith, eq_iff f k))
    decode_cell-restores f (some null) t d e h r =
        (d, ground arith, λ k. ground (arith, eq_iff f k))
    decode_cell-restores f (some v) t d e h r = (
      assign f v d,
      ground (arith, r v refl),
      λ k. ground (arith, eq_iff f k, lookup-assign k f v d),
    )

    decode_fields-restores :
        (fs : List String) (t d : Dict)
        → are_distinct fs ≡ true
        → ((f : String) → contains f fs ≡ true → IsRead (lookup f t))
        → ((k : String) → lookup k d ≡ (if contains k fs then cell (lookup k t) else lookup k t))
        → (d' : Dict) × (decode_fields loads fs d ≡ ok d')
          × ((k : String) → lookup k d' ≡ lookup k t)
    unfolding decode_fields
    decode_fields-restores [] t d h r e = (d, refl, e)
    decode_fields-restores (f ∷ fs) t d h r e =
        let (d', one, at) =
          decode_cell-restores f (lookup f t) t d refl (e f ∙ rw eq_refl refl)
            (r f (rw eq_refl refl)) in
        let (d'', more, at') =
          decode_fields-restores fs t d' (ground arith) (λ g c. r g (ground arith))
            (λ k. ground (arith, at k, e k, eq_iff f k)) in
        (d'', rw one more, at')

-- A row that is written and read again: if the JSON decoder gives back each value of a JSON column that
-- the encoder writes, then `_row` of what `_encode` makes of the row succeeds, and every column is what
-- it was, NULL or absent ones included.
pub row-encode :
    (dumps : Value → String) (loads : String → Option Value) (fields : Dict)
    → ((f : String) (v : Value)
        → contains f json_fields ≡ true
        → lookup f fields ≡ some v
        → loads (dumps v) ≡ some v)
    → (out : Dict) × (row loads (encode dumps fields) ≡ ok out)
      × ((k : String) → lookup k out ≡ lookup k fields)
unfolding row encode
row-encode dumps loads fields r =
    decode_fields-restores dumps loads json_fields fields (encode_fields dumps json_fields fields)
      refl (λ f c v. r f v c) (λ k. lookup-encode_fields dumps k json_fields fields refl)
