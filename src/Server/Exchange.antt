-- ===== src/Server/Exchange.antt =====
-- A request and its answer between the client (roles/msp_broker/files/broker/cli.py) and the server
-- (server.py there), whatever the pieces in which the bytes of either arrive.
use msp_fleet_public.Base.{
  ℕ, ◌≤◌, String, Bool, true, false, not, ◌≡◌, refl, ◌∙◌, sym, ap, none, some, List, [], ◌∷◌, ◌++◌,
  arith, nat_eq, all, length, Bool-cases, inl, inr,
}
use mathlib.Core.List.{append_assoc, append-nil}
use msp_fleet_public.Broker.{Broker, World}
use msp_fleet_public.Cli.Request.{
  RequestOutcome, returned, refused, plain, complete, receive_reply, read_reply, request_json,
  request_line, request,
}
use msp_fleet_public.Policy.{actor_for}
use msp_fleet_public.Server.{
  max_request, has_newline, receive, first_part, Decoded, Outside, decode, or_object, Call,
  Response, result, refusal, invalid_request, internal_error, answered, answer, handle_connection,
}
use msp_fleet_public.Server.Wire.{Texts, payload, sent}
use msp_fleet_public.Service.Replies.{reply_json}
use msp_fleet_public.Value.{Value, str}

-- All that arrives.
abbrev pub joined : List (List ℕ) → List ℕ
joined [] = []
joined (chunk ∷ chunks) = chunk ++ joined chunks

-- `recv` returns no bytes only at the end of a connection.
abbrev pub is_piece : List ℕ → Bool
is_piece chunk = not (nat_eq (length chunk) 0)

first_part-append :
    (bytes more : List ℕ) → has_newline bytes ≡ true → first_part (bytes ++ more) ≡ first_part bytes
unfolding first_part
first_part-append [] more h = cc
first_part-append (c ∷ bytes) more h = ground (arith, first_part-append bytes more)

first_part-line :
    (line more : List ℕ) → has_newline line ≡ false → first_part (line ++ b'\n' ∷ more) ≡ line
unfolding first_part
first_part-line [] more h = refl
first_part-line (c ∷ line) more h = ground (arith, first_part-line line more)

has_newline-line : (line more : List ℕ) → has_newline (line ++ b'\n' ∷ more) ≡ true
has_newline-line [] more = refl
has_newline-line (c ∷ line) more = ground (arith, has_newline-line line more)

-- what has arrived without a newline is no longer than the line
length-le-first_part :
    (bytes more : List ℕ)
    → has_newline bytes ≡ false
    → length bytes ≤ length (first_part (bytes ++ more))
unfolding first_part
length-le-first_part [] more h = omega arith
length-le-first_part (c ∷ bytes) more h = ground (arith, length-le-first_part bytes more)

-- The loop of the client stops with bytes that have the first line of all that arrives.
receive_reply-first_part :
    (bytes : List ℕ) (chunks : List (List ℕ))
    → all is_piece chunks ≡ true
    → has_newline (bytes ++ joined chunks) ≡ true
    → (d : List ℕ) × (receive_reply bytes chunks ≡ complete d)
      × (first_part d ≡ first_part (bytes ++ joined chunks))
unfolding receive_reply
receive_reply-first_part bytes [] h n =
    let n' : has_newline bytes ≡ true = ap has_newline (sym (append-nil bytes)) ∙ n in
    (bytes, rw n', rw append-nil)
receive_reply-first_part bytes (chunk ∷ chunks) h n = elim (Bool-cases (has_newline bytes)) [
  | inl e ↦ (bytes, rw e, sym (first_part-append bytes (joined (chunk ∷ chunks)) e))
  | inr e ↦
      let assoc = append_assoc bytes chunk (joined chunks) in
      let (d, ends, same) =
        receive_reply-first_part (bytes ++ chunk) chunks (ground arith)
          (ap has_newline assoc ∙ n) in
      (d, ground (arith, ends), same ∙ ap first_part assoc)
]

-- The loop of the server does too, if that line is within the limit.
receive-first_part :
    (bytes : List ℕ) (chunks : List (List ℕ))
    → all is_piece chunks ≡ true
    → has_newline (bytes ++ joined chunks) ≡ true
    → length (first_part (bytes ++ joined chunks)) ≤ max_request
    → (d : List ℕ) × (receive bytes chunks ≡ some d)
      × (first_part d ≡ first_part (bytes ++ joined chunks))
unfolding receive
receive-first_part bytes [] h n l =
    let n' : has_newline bytes ≡ true = ap has_newline (sym (append-nil bytes)) ∙ n in
    (bytes, rw n', rw append-nil)
receive-first_part bytes (chunk ∷ chunks) h n l = elim (Bool-cases (has_newline bytes)) [
  | inl e ↦ (bytes, rw e, sym (first_part-append bytes (joined (chunk ∷ chunks)) e))
  | inr e ↦
      let assoc = append_assoc bytes chunk (joined chunks) in
      let small = length-le-first_part bytes (joined (chunk ∷ chunks)) e in
      let (d, ends, same) =
        receive-first_part (bytes ++ chunk) chunks (ground arith) (ap has_newline assoc ∙ n)
          (rw assoc l) in
      (d, ground (arith, ends, small), same ∙ ap first_part assoc)
]

-- A value is written on one line and is read back.
pub record IsCarried (dumps : Value → List ℕ) (loads : List ℕ → Decoded) (v : Value) : Type 0 where
  pub one_line : has_newline (dumps v) ≡ false
  pub read_back : loads (dumps v) ≡ Decoded.value v

module _ (t : Texts) where
  -- What the caller of the client is told of an answer.
  abbrev pub heard : Response → RequestOutcome
  heard (result r) = returned (reply_json t.time_text r)
  heard (refusal why) = plain (t.message why)
  heard invalid_request = plain "invalid request"
  heard internal_error = refused (str "internal error") (str "ERROR")

  read_reply-payload : (r : Response) → read_reply (Decoded.value (payload t r)) ≡ heard r
  unfolding read_reply payload
  read_reply-payload (result r) = refl
  read_reply-payload (refusal why) = refl
  read_reply-payload invalid_request = refl
  read_reply-payload internal_error = refl

module _ (v : Value) (dumps : Value → List ℕ) (loads : List ℕ → Decoded) (chunks : List (List ℕ))
    (carried : IsCarried dumps loads v) (whole : joined chunks ≡ dumps v ++ b'\n' ∷ []) where
  arrives : has_newline (joined chunks) ≡ true
  arrives = ap has_newline whole ∙ has_newline-line (dumps v) []

  line_arrives : first_part (joined chunks) ≡ dumps v
  line_arrives = ap first_part whole ∙ first_part-line (dumps v) [] carried.one_line

-- The client reads the answer that the server sends, in whatever pieces it arrives.
request-sent :
    (t : Texts) (loads : List ℕ → Decoded) (path : String) (r : Response) (chunks : List (List ℕ))
    → IsCarried t.dumps loads (payload t r)
    → all is_piece chunks ≡ true
    → joined chunks ≡ sent t (answered r)
    → request loads path none true chunks ≡ heard t r
unfolding request sent
request-sent t loads path r chunks carried pieces whole =
    let v = payload t r in
    let (d, ends, same) =
      receive_reply-first_part [] chunks pieces (arrives v t.dumps loads chunks carried whole) in
    let line = same ∙ line_arrives v t.dumps loads chunks carried whole in
    rw (ends, line, carried.read_back) (read_reply-payload t r)

-- What the dispatch of a call gives for the caller's actor.
abbrev pub answer_for :
    {H : Type 0} → Broker H → Outside → ℕ → ℕ → Call → World H → Response × World H
answer_for b o uid gid c w = answer b (actor_for uid gid b.policy o.pw_lookup o.group_list) c w

-- The server answers the request that the client sends.
handle_connection-request_line :
    {H : Type 0} (b : Broker H) (o : Outside) (dumps : Value → List ℕ) (uid gid : ℕ)
    (method : String) (params : Value) (c : Call) (chunks : List (List ℕ)) (w : World H)
    → IsCarried dumps o.loads (request_json method params)
    → length (dumps (request_json method params)) ≤ max_request
    → all is_piece chunks ≡ true
    → joined chunks ≡ request_line dumps method params
    → decode (str method) (or_object params) ≡ some c
    → handle_connection b o uid gid chunks w
      ≡ some (answered (answer_for b o uid gid c w).0, (answer_for b o uid gid c w).1)
unfolding handle_connection request_line
handle_connection-request_line b o dumps uid gid method params c chunks w carried small pieces whole
      call =
    let v = request_json method params in
    let here = arrives v dumps o.loads chunks carried whole in
    let line_here = line_arrives v dumps o.loads chunks carried whole in
    let (d, ends, same) = receive-first_part [] chunks pieces here (rw line_here small) in
    rw (ends, same ∙ line_here, carried.read_back, call) refl

-- A whole exchange over a connection, whatever the pieces in which the bytes arrive: if the encoder
-- writes the client's request and the server's answer on one line each, the decoder reads them back,
-- the request's line has at most 1048576 bytes and its method and parameters are covered, then the
-- server answers what `dispatch` gives for that method, those parameters and the caller's actor, and
-- the client returns the result if it is one, and otherwise raises a refusal with the message and the
-- code of the answer.
pub request-handle_connection :
    {H : Type 0} (b : Broker H) (o : Outside) (t : Texts) (uid gid : ℕ) (path method : String)
    (params : Value) (c : Call) (up down : List (List ℕ)) (w : World H)
    → IsCarried t.dumps o.loads (request_json method params)
    → length (t.dumps (request_json method params)) ≤ max_request
    → all is_piece up ≡ true
    → joined up ≡ request_line t.dumps method params
    → decode (str method) (or_object params) ≡ some c
    → IsCarried t.dumps o.loads (payload t (answer_for b o uid gid c w).0)
    → all is_piece down ≡ true
    → joined down ≡ sent t (answered (answer_for b o uid gid c w).0)
    → (handle_connection b o uid gid up w
        ≡ some (answered (answer_for b o uid gid c w).0, (answer_for b o uid gid c w).1))
      × (request o.loads path none true down ≡ heard t (answer_for b o uid gid c w).0)
request-handle_connection b o t uid gid path method params c up down w asked small pieces line call
      told pieces' line' =
    (
      handle_connection-request_line b o t.dumps uid gid method params c up w asked small pieces
          line call,
      request-sent t o.loads path (answer_for b o uid gid c w).0 down told pieces' line',
    )
