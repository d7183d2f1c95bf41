-- ===== src/Server/Approving.antt =====
-- An approval from the client to the store and back (roles/msp_broker/files/broker/cli.py, server.py
-- and service.py there).
use msp_fleet_public.Base.{ℕ, ℤ, String, true, ◌≡◌, none, some, List}
use msp_fleet_public.Broker.{Broker, World, free}
use msp_fleet_public.Cli.Request.{returned, request}
use msp_fleet_public.Plan.{Target}
use msp_fleet_public.Policy.{Actor}
use msp_fleet_public.Server.{Outside, Call, Response, Closed, handle_connection}
use msp_fleet_public.Server.Exchange.{answer_for}
use msp_fleet_public.Server.Wire.{Texts}
use msp_fleet_public.Service.Answers.{Present}
use msp_fleet_public.Service.Answers.Running.{OfStatus}
use msp_fleet_public.Service.Execute.{Answer}
use msp_fleet_public.Service.Receipts.Approved.{Filed}
use msp_fleet_public.Service.Replies.{answer_json}
use msp_fleet_public.Service.Requests.{Request, Reply}
use msp_fleet_public.Store.Rows.{Row}
use msp_fleet_public.Value.{Value, str, obj, end, field}

-- the parameters that the client sends to approve
abbrev pub approval : String → String → Value
approval id confirmation =
    obj (field "confirmation" (str confirmation) (field "proposal_id" (str id) end))

module _ {H : Type 0} (b : Broker H) where
  -- What comes of an approval: the server's answer with a return code, which the client is told, and a
  -- stored row and a receipt of the state in that answer.
  pub record Told (o : Outside) (t : Texts) (uid gid : ℕ) (path id : String)
      (up down : List (List ℕ)) (w : World H) (p : Row) : Type 0 where
    pub answered : Answer
    pub left : World H
    pub handled :
        handle_connection b o uid gid up w
        ≡ some (Closed.answered (Response.result (Reply.answered answered)), left)
    pub told : request o.loads path none true down ≡ returned (answer_json answered)
    pub code : ℤ
    pub coded : answered.rc ≡ some code
    pub stored : Present id (OfStatus p answered.status) left
    pub filed : Filed id answered.status (some code) left
    pub unlocked : left.lock ≡ free

  module _ (o : Outside) (t : Texts) (uid gid : ℕ) (path id confirmation : String) (actor : Actor)
      (up down : List (List ℕ)) (w : World H) (p : Row) (target : Target) where
    abbrev pub the_answer : Response
    the_answer = (answer_for b o uid gid (Call.call (Request.approve id confirmation)) w).0
