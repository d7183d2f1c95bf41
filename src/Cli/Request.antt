-- ===== src/Cli/Request.antt =====
-- `request` of roles/msp_broker/files/broker/cli.py: the client's side of a connection. What `connect`
-- and `recv` do and the JSON encoder and decoder are given.
use msp_fleet_public.Base.{
  ℕ, String, Bool, true, false, Option, none, some, List, [], ◌∷◌, ◌++◌, ◌<>◌, nat_eq, length,
  if◌then◌else◌,
}
use msp_fleet_public.Server.{has_newline, first_part, Decoded, or_object}
use msp_fleet_public.Value.{Value, null, str, obj, end, field, get_or, truthy}

-- What `request` returns, a `Refused` with its message and code, or another exception.
pub data RequestOutcome : Type 0 where
  returned : Value → RequestOutcome
  refused : Value → Value → RequestOutcome
  raised : RequestOutcome

-- `Refused(message)`
abbrev pub plain : String → RequestOutcome
plain message = refused (str message) (str "REFUSED")

-- The reply as it is received: bytes with a newline, a connection that the broker closed, or a
-- timeout or another error of `recv`.
pub data ReplyBytes : Type 0 where
  complete : List ℕ → ReplyBytes
  closed failed : ReplyBytes

-- The loop of `request`, over what `recv` returns each time; the list ends where it raises.
unfoldable pub receive_reply : List ℕ → List (List ℕ) → ReplyBytes
receive_reply bytes [] = if has_newline bytes then complete bytes else failed
receive_reply bytes (chunk ∷ chunks) =
    let rest = receive_reply (bytes ++ chunk) chunks in
    if has_newline bytes then complete bytes else if nat_eq (length chunk) 0 then closed else rest

-- `Refused(error.get("message", "refused"), error.get("code", "REFUSED"))`
unfoldable pub read_error : Value → RequestOutcome
read_error (obj fs) =
    refused (get_or "message" (str "refused") fs) (get_or "code" (str "REFUSED") fs)
read_error error = raised

unfoldable pub read_reply : Decoded → RequestOutcome
unfolding truthy read_error
read_reply Decoded.invalid = plain "invalid reply from broker"
read_reply Decoded.raised = raised
read_reply (Decoded.value (obj fs)) =
    if truthy (get_or "ok" null fs)
    then returned (get_or "result" null fs)
    else read_error (or_object (get_or "error" null fs))
read_reply (Decoded.value reply) = raised

-- `{"method": method, "params": params}`
abbrev pub request_json : String → Value → Value
request_json method params = obj (field "method" (str method) (field "params" params end))

-- The line that `sendall` is given.
unfoldable pub request_line : (Value → List ℕ) → String → Value → List ℕ
request_line dumps method params = dumps (request_json method params) ++ b'\n' ∷ []

unfoldable pub read_received : (List ℕ → Decoded) → ReplyBytes → RequestOutcome
unfolding first_part read_reply
read_received loads (complete bytes) = read_reply (loads (first_part bytes))
read_received loads closed = plain "broker closed the connection"
read_received loads failed = raised

-- `request`, over the error of `connect` if there is one, whether `sendall` succeeds, and what `recv`
-- returns
unfoldable pub request :
    (List ℕ → Decoded) → String → Option String → Bool → List (List ℕ) → RequestOutcome
unfolding receive_reply read_received
request loads path (some error) sends chunks =
    plain ("cannot reach broker at " <> path <> ": " <> error)
request loads path none false chunks = raised
request loads path none true chunks = read_received loads (receive_reply [] chunks)
