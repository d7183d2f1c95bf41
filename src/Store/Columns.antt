-- ===== src/Store/Columns.antt =====
-- The JSON columns of the proposals table (`_encode` and `_row` of
-- roles/msp_broker/files/broker/store.py), over a row as a dict from columns to values. The JSON encoder
-- and decoder are given.
pub mod Restored
use msp_fleet_public.Base.{String, Option, none, some, List, [], ◌∷◌}
use msp_fleet_public.Failure.{Result, ok, err, crash, ◌>>=◌}
use msp_fleet_public.Value.{Value, null, str, lookup, assign}

abbrev pub Dict : Type 0
Dict = List (String × Value)

-- `JSON_FIELDS`
abbrev pub json_fields : List String
json_fields = "parameters" ∷ "plan" ∷ "pre_state" ∷ "post_state" ∷ "ai_declared" ∷ []

module _ (dumps : Value → String) where
  abbrev pub encode_cell : String → Option Value → Dict → Dict
  encode_cell field none out = out
  encode_cell field (some null) out = out
  encode_cell field (some v) out = assign field (str (dumps v)) out

  unfoldable pub encode_fields : List String → Dict → Dict
  unfolding assign
  encode_fields [] out = out
  encode_fields (field ∷ fields) out =
      encode_fields fields (encode_cell field (lookup field out) out)

  -- `_encode`
  unfoldable pub encode : Dict → Dict
  unfolding encode_fields
  encode fields = encode_fields json_fields fields

module _ (loads : String → Option Value) where
  abbrev assign_loaded : String → Option Value → Dict → Result Dict
  assign_loaded field none out = err crash
  assign_loaded field (some v) out = ok (assign field v out)

  abbrev pub decode_cell : String → Option Value → Dict → Result Dict
  decode_cell field none out = ok out
  decode_cell field (some null) out = ok out
  decode_cell field (some (str s)) out = assign_loaded field (loads s) out
  decode_cell field (some v) out = err crash

  unfoldable pub decode_fields : List String → Dict → Result Dict
  unfolding assign
  decode_fields [] out = ok out
  decode_fields (field ∷ fields) out =
      decode_cell field (lookup field out) out >>= λ out'. decode_fields fields out'

  -- `_row` of a row that is found
  unfoldable pub row : Dict → Result Dict
  unfolding decode_fields
  row out = decode_fields json_fields out
