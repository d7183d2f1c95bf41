-- ===== src/Tests/Wire.antt =====
-- An exchange over a connection, the life of the server and the columns of the store, at concrete
-- inputs.
use msp_fleet_public.Base.{
  ℕ, true, ◌≡◌, refl, none, some, List, [], ◌∷◌, nat_eq, arith, if◌then◌else◌,
}
use msp_fleet_public.Broker.Actions.{require_approve}
use msp_fleet_public.Cli.Request.{request, plain, request_json, request_line}
use msp_fleet_public.Exec.{◌>>=◌}
use msp_fleet_public.Failure.{not_an_approver}
use msp_fleet_public.Kinds.{codes}
use msp_fleet_public.Policy.{actor_for, groups_of}
use msp_fleet_public.Samples.{broker, staged}
use msp_fleet_public.Server.{
  Outside, Decoded, Closed, Call, Response, handle_connection, decode, decode_method,
  approve_request,
}
use msp_fleet_public.Server.Exchange.{IsCarried, request-handle_connection}
use msp_fleet_public.Server.Wire.{Texts, error_json, payload, respond, sent}
use msp_fleet_public.Service.Decide.{approve, approve_check}
use msp_fleet_public.Service.Requests.{Request, handle}
use msp_fleet_public.Value.{Value, str, obj, field, end, truthy}

abbrev params : Value
params = obj (field "proposal_id" (str "0") end)

abbrev denied : Value
denied = error_json "REFUSED" "not an approver"

abbrev spell : Value → List ℕ
spell (obj (field key (str v) fs)) =
    codes "{\"method\": \"approve\", \"params\": {\"proposal_id\": \"0\"}}"
spell v =
    codes "{\"error\": {\"code\": \"REFUSED\", \"message\": \"not an approver\"}, \"ok\": false}"

abbrev read_line : List ℕ → Decoded
read_line (a ∷ b ∷ c ∷ line) =
    if nat_eq c b'm' then Decoded.value (request_json "approve" params) else Decoded.value denied
read_line line = Decoded.invalid

-- a user who is in no group
abbrev outside : Outside
outside = record { loads = read_line; pw_lookup = λ uid. some "bob"; group_list = [] }

abbrev texts : Texts
texts = record {
  dumps = spell;
  time_text = λ n. "2026-01-01T00:00:00Z";
  message = λ why. "not an approver";
}

abbrev up : List (List ℕ)
up = codes "{\"method\": \"app" ∷ codes "rove\", \"params\": {\"proposal_id\": \"0\"}}\n" ∷ []

abbrev down : List (List ℕ)
down =
    codes "{\"error\": {\"code\": \"REFUSED\", "
    ∷ codes "\"message\": \"not an approver\"}, \"ok\": false}"
    ∷ codes "\n"
    ∷ []

up_line : IsCarried spell read_line (request_json "approve" params)
up_line = record { one_line = refl; read_back = refl }

request-handle_connection_example :
    (handle_connection broker outside 1001 1001 up staged
      ≡ some (Closed.answered (Response.refusal not_an_approver), staged))
    × (request read_line "/run/msp/broker.sock" none true down ≡ plain "not an approver")
unfolding actor_for groups_of handle approve approve_check require_approve ◌>>=◌ decode
    decode_method approve_request truthy payload sent respond request_line
request-handle_connection_example =
    request-handle_connection broker outside texts 1001 1001 "/run/msp/broker.sock" "approve" params
      (Call.call (Request.approve "0" "")) up down staged up_line (omega arith) refl refl refl
      (record { one_line = refl; read_back = refl }) refl refl
