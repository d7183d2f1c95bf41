-- ===== src/Server/Wire.antt =====
-- The answers on the wire (`_handle` and `_respond` of roles/msp_broker/files/broker/server.py): the
-- JSON objects that are sent back. The JSON encoder and the texts of times and refusals are given; keys stand in the order of `sort_keys`.
use msp_fleet_public.Base.{ℕ, String, true, false, List, [], ◌∷◌, ◌++◌}
use msp_fleet_public.Failure.{Refusal}
use msp_fleet_public.Server.{Response, result, refusal, invalid_request, internal_error, Closed}
use msp_fleet_public.Service.Replies.{reply_json}
use msp_fleet_public.Value.{Value, bool, str, obj, end, field}

-- What an answer says, in texts and JSON.
pub record Texts : Type 0 where
  -- `json.dumps(v, sort_keys=True)` in UTF-8
  pub dumps : Value → List ℕ
  -- a time in the format of `utcnow`
  pub time_text : ℕ → String
  -- `str(exc)` of a refusal
  pub message : Refusal → String

abbrev pub error_json : String → String → Value
error_json code message = obj (
    field "error" (obj (field "code" (str code) (field "message" (str message) end)))
      (field "ok" (bool false) end))

unfoldable pub payload : Texts → Response → Value
payload t (result r) = obj (field "ok" (bool true) (field "result" (reply_json t.time_text r) end))
payload t (refusal why) = error_json "REFUSED" (t.message why)
payload t invalid_request = error_json "REFUSED" "invalid request"
payload t internal_error = error_json "ERROR" "internal error"

-- `_respond`
unfoldable pub respond : Texts → Value → List ℕ
respond t v = t.dumps v ++ b'\n' ∷ []

-- What a connection sends before it is closed.
unfoldable pub sent : Texts → Closed → List ℕ
unfolding respond payload
sent t (Closed.answered r) = respond t (payload t r)
sent t Closed.silent = []
