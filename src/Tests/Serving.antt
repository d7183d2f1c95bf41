-- ===== src/Tests/Serving.antt =====
-- The theorems on approvals that are carried out, on connections and on the tables, at concrete inputs.
use msp_fleet_public.Base.{ℕ, ◌≡◌, refl, some, List, [], ◌∷◌, arith}
use msp_fleet_public.Broker.{World}
use msp_fleet_public.Exec.{◌>>=◌}
use msp_fleet_public.Failure.{ok, err, refused, not_an_approver}
use msp_fleet_public.Kinds.{codes}
use msp_fleet_public.Adapter.Mock.{MockHost}
use msp_fleet_public.Platform.{plan_hash, decimal}
use msp_fleet_public.Policy.{actor_for, groups_of}
use msp_fleet_public.Registry.{is_high}
use msp_fleet_public.Samples.{broker, staged, approver, reader, mock_target, row_of}
use msp_fleet_public.Server.{
  Outside, Decoded, Closed, Response, handle_connection, receive, first_part, decode, decode_method,
  approve_request,
}
use msp_fleet_public.Server.Receive.{Received, receive-Received}
use msp_fleet_public.Service.Answers.Running.Approving.{
  Approvable, Answered, approve-Answered, Runnable, Carried, approve_run-Carried,
}
use msp_fleet_public.Service.Decide.{approve, approve_check, approve_run, check_hash}
use msp_fleet_public.Service.Hosts.Authorised.{expired_world}
use msp_fleet_public.Service.Race.{Pending, System, Step, Steps}
use msp_fleet_public.Service.Race.Hosts.{host-steps_without_approvers}
use msp_fleet_public.Service.Race.Waiting.{Reached, steps-Reached}
use msp_fleet_public.Broker.Actions.{require_approve, expire, now, known_proposal}
use msp_fleet_public.Service.Requests.{Request, handle}
use msp_fleet_public.Store.{get, inventory_get, expire_stale, expire_row}
use msp_fleet_public.Store.Moves.{frozen}
use msp_fleet_public.Store.Replay.{Write, replay, spec_replay, get-replay}
use msp_fleet_public.Store.Rows.{Row, Status, is_proposed}
use msp_fleet_public.Tests.{reads_free}
use msp_fleet_public.Value.{str, obj, field, end, truthy}

pub approvable : Approvable broker approver "0" "" staged (row_of Status.proposed) mock_target
unfolding get inventory_get plan_hash decimal is_high
approvable = record {
  approver = refl;
  found = refl;
  own = refl;
  awaiting = refl;
  intact = refl;
  confirmed = refl;
  with_script = refl;
  there = refl;
  own_target = refl;
  lock_free = refl;
  in_time = λ n h. omega (arith, h);
}

approve-Answered_example : Answered broker approver "0" "" staged (row_of Status.proposed)
approve-Answered_example =
    approve-Answered broker approver "0" "" staged (row_of Status.proposed) mock_target approvable

-- the world after another approval of the same proposal
abbrev executed_world : World MockHost
executed_world = record staged { proposals = row_of Status.succeeded ∷ [] }

runnable : Runnable broker "0" executed_world (row_of Status.proposed) mock_target
unfolding get inventory_get plan_hash decimal frozen
runnable = record {
  stored = record { row = row_of Status.succeeded; found = refl; fact = refl };
  intact = refl;
  with_script = refl;
  there = refl;
  own_target = refl;
  lock_free = refl;
  in_time = λ n h. omega (arith, h);
}

approve_run-Carried_example : Carried broker approver "0" (row_of Status.proposed) executed_world
approve_run-Carried_example =
    approve_run-Carried broker approver "0" executed_world (row_of Status.proposed) mock_target
      runnable

-- a request of a user who is in no group, to approve
abbrev pub outside : Outside
outside = record {
  loads = λ line. Decoded.value (
      obj (
        field "method" (str "approve")
          (field "params" (obj (field "proposal_id" (str "0") end)) end)));
  pw_lookup = λ uid. some "bob";
  group_list = [];
}

abbrev pub chunks : List (List ℕ)
chunks = codes "{}\n" ∷ []

abbrev pub refusal : Closed
refusal = Closed.answered (Response.refusal not_an_approver)

pub connection : handle_connection broker outside 1001 1001 chunks staged ≡ some (refusal, staged)
unfolding handle_connection receive first_part decode decode_method approve_request actor_for
    groups_of handle approve approve_check require_approve ◌>>=◌ truthy
connection = refl

receive-Received_example : Received [] chunks
receive-Received_example = receive-Received chunks refl refl

abbrev writes : List Write
writes =
    Write.insertion (row_of Status.proposed)
    ∷ Write.change "0" (λ r. record r { status = Status.rejected }) (λ r. refl)
    ∷ Write.expiry 9
    ∷ []

get-replay_example : get (replay writes []) "0" ≡ spec_replay writes (get []) "0"
get-replay_example = get-replay writes [] "0"

abbrev rows : List Row
rows = row_of Status.proposed ∷ record (row_of Status.failed) { created_at = 7 } ∷ []

-- An approval whose checks pass, and then another one before the first is carried out.
abbrev waiting : Pending
waiting = record { actor = approver; id = "0"; row = row_of Status.proposed }

abbrev checked_world : World MockHost
checked_world = expired_world broker staged

first_check :
    approve_check broker approver "0" "" staged ≡ (ok (row_of Status.proposed), checked_world)
unfolding approve_check require_approve expire now ◌>>=◌ known_proposal get expire_stale expire_row
    is_proposed check_hash plan_hash decimal is_high
first_check = refl

second_check :
    approve_check broker approver "0" "" checked_world
    ≡ (ok (row_of Status.proposed), expired_world broker checked_world)
unfolding approve_check require_approve expire now ◌>>=◌ known_proposal get expire_stale expire_row
    is_proposed check_hash plan_hash decimal is_high
second_check = refl

abbrev system : World MockHost → List Pending → System MockHost
system w ps = record { world = w; pending = ps }

abbrev twice : World MockHost
twice = expired_world broker checked_world

overlap :
    Steps broker
      (system staged [])
      (system (approve_run broker approver "0" (row_of Status.proposed) twice).1 (waiting ∷ []))
overlap =
    Steps.then
      (Step.checked approver "0" "" staged checked_world (row_of Status.proposed) [] first_check)
      (Steps.then
        (Step.checked approver "0" "" checked_world twice (row_of Status.proposed) (waiting ∷ [])
          second_check)
        (Steps.then (Step.run waiting twice [] (waiting ∷ [])) Steps.done))

steps-Reached_example :
    Reached broker
      (system staged [])
      (system (approve_run broker approver "0" (row_of Status.proposed) twice).1 (waiting ∷ []))
steps-Reached_example =
    steps-Reached broker (system staged [])
      (system (approve_run broker approver "0" (row_of Status.proposed) twice).1 (waiting ∷ []))
      overlap tt

-- A reader who asks to approve, and who then cancels the proposal.
refused_check : approve_check broker reader "0" "" staged ≡ (err (refused not_an_approver), staged)
unfolding approve_check require_approve ◌>>=◌
refused_check = refl

abbrev cancelled_world : World MockHost
cancelled_world = (handle broker reader (Request.cancel "0") staged).1

readers : Steps broker (system staged []) (system cancelled_world [])
readers =
    Steps.then (Step.refused reader "0" "" staged staged (refused not_an_approver) [] refused_check)
      (Steps.then (Step.request reader (Request.cancel "0") staged []) Steps.done)

host-steps_without_approvers_example : cancelled_world.host ≡ staged.host
unfolding readers
host-steps_without_approvers_example =
    host-steps_without_approvers broker reads_free (system staged []) (system cancelled_world [])
      readers refl refl
