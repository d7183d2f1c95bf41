-- ===== src/Server.antt =====
-- A connection to the broker (roles/msp_broker/files/broker/server.py): the bytes that are received,
-- the request that they hold, its dispatch, and the answer. A request whose texts are other JSON
-- values, or whose limit has more than 64 bits, is not covered: `decode` has none for it.
pub mod Receive
pub mod Callers
pub mod Wire
pub mod Exchange
pub mod Listener
pub mod Lifetime
pub mod Approving
use msp_fleet_public.Base.{
  ℕ, ◌+◌, ℤ, pos, negsuc, String, Bool, true, false, not, ◌&&◌, ◌||◌, Option, none, some, List, [],
  ◌∷◌, ◌++◌, ◌==◌, ltb, leb, nat_eq, any, length, if◌then◌else◌,
}
use Prim.Native.Nat.{◌^◌}
use msp_fleet_public.Broker.{Broker, World}
use msp_fleet_public.Exec.{Exec, raise, lift, ◌>>=◌}
use msp_fleet_public.Failure.{
  Result, ok, err, refused, Refusal, bad_params, unknown_method, adapter_error, config_error,
  store_error, crash,
}
use msp_fleet_public.Policy.{Actor, Group, actor_for}
use msp_fleet_public.Service.Requests.{Request, Reply, handle}
use msp_fleet_public.Value.{
  Value, null, bool, num, real, str, obj, arr, Fields, end, nil, entries, items, lookup, get_or,
  truthy,
}
use msp_fleet_public.Value.Arguments.{first_arg}

-- `MAX_REQUEST`
abbrev pub max_request : ℕ
max_request = 2 ^ 20

abbrev pub has_newline : List ℕ → Bool
has_newline bytes = any (λ c. nat_eq c b'\n') bytes

-- The loop of `_handle`, over what `recv` returns each time: the bytes at its end, or none if the
-- peer closes the connection or is silent until the timeout.
unfoldable pub receive : List ℕ → List (List ℕ) → Option (List ℕ)
receive bytes [] =
    if not (has_newline bytes) && leb (length bytes) max_request then none else some bytes
receive bytes (chunk ∷ chunks) =
    let rest = receive (bytes ++ chunk) chunks in
    if not (has_newline bytes) && leb (length bytes) max_request
    then (if nat_eq (length chunk) 0 then none else rest)
    else some bytes

-- `data.split(b"\n", 1)[0]`
unfoldable pub first_part : List ℕ → List ℕ
first_part [] = []
first_part (c ∷ bytes) = if nat_eq c b'\n' then [] else c ∷ first_part bytes

-- `json.loads(line.decode("utf-8"))`: its value, a ValueError, or another exception
pub data Decoded : Type 0 where
  value : Value → Decoded
  invalid raised : Decoded

-- What the server finds outside the broker: the JSON decoder and the user and group databases.
pub record Outside : Type 0 where
  pub loads : List ℕ → Decoded
  pub pw_lookup : ℕ → Option String
  pub group_list : List Group

-- A text of the parameters, with its default.
abbrev pub text_at : String → String → Fields → Option String
text_at key other fs = elim (get_or key (str other) fs) [ str s ↦ some s | _ ↦ none ]

-- The same where `x or ""` is taken of it.
abbrev pub text_or_null_at : String → Fields → Option String
text_or_null_at key fs = elim (get_or key (str "") fs) [
  | str s ↦ some s
  | null ↦ some ""
  | _ ↦ none
]

-- `args[0] if args else ""`, if it is a text.
abbrev pub argument : Value → Option String
argument args = elim (first_arg args) [ ok (str s) ↦ some s | _ ↦ none ]

abbrev pub with_text : Option String → (String → Option Request) → Option Request
with_text none f = none
with_text (some s) f = f s

-- `service.read(actor, verb, args)`
unfoldable pub read_request : Value → String → Option Request
read_request args verb =
    if verb == "inventory"
    then some Request.read_inventory
    else if verb == "target"
    then with_text (argument args) (λ ref. some (Request.read_target ref))
    else if verb == "proposal"
    then with_text (argument args) (λ id. some (Request.read_proposal id))
    else some (Request.read_adapter verb args)

unfoldable pub script_request : Fields → Option Request
script_request fs = with_text (text_at "file" "" fs) λ file.
    with_text (text_or_null_at "effects" fs) λ effects. some (
      Request.propose_script (get_or "target" (str "") fs) (get_or "interpreter" (str "") fs) file
        (get_or "purpose" (str "") fs) effects (get_or "timeout" null fs))

-- A limit of 64 bits.
unfoldable pub list_request : Value → Option Request
list_request (num (pos n)) = if ltb n (2 ^ 63) then some (Request.list (pos n)) else none
list_request (num (negsuc n)) = if ltb n (2 ^ 63) then some (Request.list (negsuc n)) else none
list_request _ = none

unfoldable pub approve_request : Fields → Option Request
approve_request fs = with_text (text_at "proposal_id" "" fs) λ id.
    with_text (text_at "confirmation" "" fs) λ confirmation. some (Request.approve id confirmation)

unfoldable pub reject_request : Fields → Option Request
reject_request fs =
    with_text (text_at "proposal_id" "" fs)
      λ id. with_text (text_or_null_at "reason" fs) λ reason. some (Request.reject id reason)

-- What `dispatch` calls: a method of the service, or a refusal of its own.
pub data Call : Type 0 where
  call : Request → Call
  wrong : Refusal → Call

abbrev pub calls : Option Request → Option Call
calls none = none
calls (some r) = some (call r)

abbrev pub named : (String → Request) → Fields → Option Request
named f fs = with_text (text_at "proposal_id" "" fs) (λ id. some (f id))

unfoldable pub decode_method : String → Fields → Option Call
unfolding read_request script_request list_request approve_request reject_request
decode_method method fs =
    if method == "read"
    then calls (with_text (text_at "verb" "" fs) (read_request (get_or "args" (arr nil) fs)))
    else if method == "propose"
    then calls (
        some (
          Request.propose (get_or "operation" (str "") fs) (get_or "target" (str "") fs)
            (get_or "parameters" (obj end) fs)))
    else if method == "propose_script"
    then calls (script_request fs)
    else if method == "propose_plan"
    then calls
        (some (Request.propose_plan (get_or "steps" (arr nil) fs) (get_or "purpose" (str "") fs)))
    else if method == "list"
    then calls (list_request (get_or "limit" (num (pos 20)) fs))
    else if method == "show"
    then calls (named Request.show fs)
    else if method == "status"
    then calls (named Request.status fs)
    else if method == "approve"
    then calls (approve_request fs)
    else if method == "reject"
    then calls (reject_request fs)
    else if method == "cancel"
    then calls (named Request.cancel fs)
    else some (wrong unknown_method)

-- `dispatch`, up to the call; `params` is `request.get("params") or {}`
unfoldable pub decode : Value → Value → Option Call
unfolding decode_method
decode (str method) (obj fs) = decode_method method fs
decode method (obj fs) = some (wrong unknown_method)
decode method params = some (wrong bad_params)

abbrev pub or_object : Value → Value
or_object v = if truthy v then v else obj end

-- What is sent back: a result, the message of a refusal, or that of another exception.
pub data Response : Type 0 where
  result : Reply → Response
  refusal : Refusal → Response
  invalid_request internal_error : Response

abbrev pub response : Result Reply → Response
response (ok r) = result r
response (err (refused why)) = refusal why
response (err _) = internal_error

-- The end of a connection: what is sent, or that nothing is, since the peer is gone or the thread
-- ends by an exception.
pub data Closed : Type 0 where
  answered : Response → Closed
  silent : Closed

module _ {H : Type 0} (b : Broker H) where
  abbrev pub perform : Actor → Call → Exec (World H) Reply
  perform actor (call r) = handle b actor r
  perform actor (wrong why) = raise (refused why)

  -- the dispatch, with the exceptions that are answered
  abbrev pub answer : Result Actor → Call → World H → Response × World H
  answer (err e) c w = (response (err e), w)
  answer (ok actor) c w = let (r, w') = perform actor c w in (response r, w')

  abbrev pub answer_covered : Result Actor → Option Call → World H → Option (Closed × World H)
  answer_covered actor none w = none
  answer_covered actor (some c) w = let (r, w') = answer actor c w in some (answered r, w')

  abbrev pub answer_decoded : Outside → ℕ → ℕ → Decoded → World H → Option (Closed × World H)
  answer_decoded o uid gid invalid w = some (answered invalid_request, w)
  answer_decoded o uid gid raised w = some (silent, w)
  answer_decoded o uid gid (value (obj fs)) w =
      answer_covered (actor_for uid gid b.policy o.pw_lookup o.group_list)
        (decode (get_or "method" null fs) (or_object (get_or "params" null fs))) w
  answer_decoded o uid gid (value v) w = some (answered invalid_request, w)

  abbrev pub answer_line : Outside → ℕ → ℕ → Option (List ℕ) → World H → Option (Closed × World H)
  answer_line o uid gid none w = some (silent, w)
  answer_line o uid gid (some bytes) w = answer_decoded o uid gid (o.loads (first_part bytes)) w

  -- `_handle` of a connection from a user and a group, given what `recv` returns; none for a request
  -- that is not covered
  unfoldable pub handle_connection :
      Outside → ℕ → ℕ → List (List ℕ) → World H → Option (Closed × World H)
  unfolding receive first_part decode
  handle_connection o uid gid chunks w = answer_line o uid gid (receive [] chunks) w
