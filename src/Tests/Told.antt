-- ===== src/Tests/Told.antt =====
-- An approval from the client to the store and back, at a concrete input.
use msp_fleet_public.Base.{ℕ, some, List, [], ◌∷◌, true, nat_eq, if◌then◌else◌}
use msp_fleet_public.Kinds.{codes}
use msp_fleet_public.Samples.{broker, staged, approver, mock_target, row_of}
use msp_fleet_public.Server.{Outside, Decoded, Response}
use msp_fleet_public.Server.Approving.{approval, the_answer}
use msp_fleet_public.Server.Wire.{Texts}
use msp_fleet_public.Service.Replies.{reply_json}
use msp_fleet_public.Service.Requests.{Reply}
use msp_fleet_public.Cli.Request.{request_json}
use msp_fleet_public.Store.Rows.{Status}
use msp_fleet_public.Tests.{answer}
use msp_fleet_public.Value.{Value, bool, str, obj, field, end}

abbrev spell : Value → List ℕ
spell (obj (field key (str v) fs)) =
    codes "{\"method\": \"approve\", \"params\": {\"confirmation\": \"\", \"proposal_id\": \"0\"}}"
spell v = codes "{\"ok\": true, \"result\": {\"proposal_id\": \"0\", \"rc\": 0}}"

abbrev answered : Value
answered =
    obj (field "ok" (bool true) (field "result" (reply_json (λ n. "") (Reply.answered answer)) end))

abbrev read_line : List ℕ → Decoded
read_line (a ∷ b ∷ c ∷ line) =
    if nat_eq c b'm'
    then Decoded.value (request_json "approve" (approval "0" ""))
    else Decoded.value answered
read_line line = Decoded.invalid

-- a user in the group of the approvers
abbrev outside : Outside
outside = record {
  loads = read_line;
  pw_lookup = λ uid. some "ann";
  group_list = record { gr_gid = 1000; gr_name = "msp-approvers"; gr_mem = [] } ∷ [];
}

abbrev texts : Texts
texts = record { dumps = spell; time_text = λ n. ""; message = λ why. "" }

abbrev up : List (List ℕ)
up =
    codes "{\"method\": \"approve\", "
    ∷ codes "\"params\": {\"confirmation\": \"\", \"proposal_id\": \"0\"}}\n"
    ∷ []

abbrev down : List (List ℕ)
down = codes "{\"ok\": true, \"result\": {" ∷ codes "\"proposal_id\": \"0\", \"rc\": 0}}\n" ∷ []

abbrev the_response : Response
the_response =
    the_answer broker outside texts 1000 1000 "" "0" "" approver up down staged
      (row_of Status.proposed) mock_target
