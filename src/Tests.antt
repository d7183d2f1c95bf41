-- ===== src/Tests.antt =====
-- Runs of the broker of Samples, and the theorems of the development at concrete inputs.
mod Serving
mod Setup
mod Wire
mod Lives
mod Told
mod Saved
mod Altered
mod Gate
mod Proposals
mod Stored
use msp_fleet_public.Base.{
  ℕ, String, ◌≡◌, ◌≢◌, refl, ap, subst, arith, true, false, pos, Bool-cases, ◌==◌, Option, none,
  some, map, List, [], ◌∷◌, inl, inr,
}
use msp_fleet_public.Adapter.Mock.{MockHost, mock-ReadsAreFree}
use msp_fleet_public.Adapter.Mock
use msp_fleet_public.Adapter.{Adapter, ReadsAreFree}
use msp_fleet_public.Broker.{World}
use msp_fleet_public.Broker.Actions.{
  on_host, except_adapter_error, except_all, finally, now, expire, log, adapter, known_proposal,
  own_target, require_read, require_approve, get_row, write_row, acquire,
}
use msp_fleet_public.Exec.{◌>>=◌}
use msp_fleet_public.Service.Execute.{
  Answer, run_row, guarded_run, file_result, run_and_record, execute,
}
use msp_fleet_public.Service.Runs.{execute_operation}
use msp_fleet_public.Service.Decide.{check_hash, approve_locked, approve_run}
use msp_fleet_public.Service.Views.{write_receipt, build_receipt}
use msp_fleet_public.Plan.{found_eq, atom_eq}
use msp_fleet_public.Platform.{plan_hash, clamp, sanitize, decimal}
use msp_fleet_public.Registry.{is_high}
use msp_fleet_public.Store.{expire_stale, expire_row, update, inventory_get, add_receipt}
use msp_fleet_public.Value.{lookup, str}
use msp_fleet_public.Store.Rows.{is_proposed}
use msp_fleet_public.Failure.{Result, ok, err, refused}
use msp_fleet_public.Plan.{Target}
use msp_fleet_public.Samples.{
  platform, broker, start, staged, rejected_world, row_of, approver, reader, propose_echo,
  propose_halt, mock_target, other_target,
}
use msp_fleet_public.Service.Decide.{approve_check, approve}
use msp_fleet_public.Service.Hosts.{AllReadsAreFree, host-handle, host-serve_without_approvers}
use msp_fleet_public.Service.Hosts.Authorised.{Authorised, host-approve-Authorised}
use msp_fleet_public.Service.Life.Requests.{handle-Moves, serve-Moves, serve-get_final}
use msp_fleet_public.Service.Once.{approve_final, approve_once, why_refused}
use msp_fleet_public.Service.Receipts.Approved.{Filed, approve-Filed}
use msp_fleet_public.Service.Requests.{Request, handle, serve}
use msp_fleet_public.Store.{get, Table}
use msp_fleet_public.Store.Moves.{Moves, is_final}
use msp_fleet_public.Policy.{Actor}
use msp_fleet_public.Store.Rows.{Row, Status}

-- An approval of the proposal executes it.
approved_host :
    (approve broker approver "0" "" staged).1.host
    ≡ some (record { counter = 1; last_message = "hello"; last_target = "mock/one" })
unfolding approve approve_check require_approve expire now ◌>>=◌ known_proposal get expire_stale
    expire_row is_proposed check_hash plan_hash decimal is_high approve_run acquire finally
    approve_locked write_row update log execute get_row own_target inventory_get run_and_record
    guarded_run except_all run_row execute_operation adapter except_adapter_error on_host
    Mock.precheck Mock.preconditions_hold Mock.execute Mock.load Mock.after_run clamp sanitize
    found_eq atom_eq file_result write_receipt build_receipt
approved_host = refl

abbrev pub answer : Answer
answer = record {
  proposal_id = "0";
  status = Status.succeeded;
  rc = some (pos 0);
  stdout = "mock mock.echo ok\n";
  stderr = "";
  summary = "";
}

pub approved_answer : (approve broker approver "0" "" staged).0 ≡ ok answer
unfolding approve approve_check require_approve expire now ◌>>=◌ known_proposal get expire_stale
    expire_row is_proposed check_hash plan_hash decimal is_high approve_run acquire finally
    approve_locked write_row update log execute get_row own_target inventory_get run_and_record
    guarded_run except_all run_row execute_operation adapter except_adapter_error on_host
    Mock.precheck Mock.preconditions_hold Mock.execute Mock.load Mock.after_run clamp sanitize
    found_eq atom_eq file_result write_receipt build_receipt
approved_answer = refl

changed : (approve broker approver "0" "" staged).1.host ≢ staged.host
changed e = cc approved_host

host-approve-Authorised_example : Authorised broker approver "0" "" staged
host-approve-Authorised_example = host-approve-Authorised broker approver "0" "" staged changed

only_entry :
    {V : Type 0} (key name : String) (v u : V) → lookup name ((key, v) ∷ []) ≡ some u → v ≡ u
only_entry key name v u h = ground arith

pub reads_free : AllReadsAreFree broker
reads_free = record {
  each = λ name a h.
      subst ReadsAreFree (only_entry "mock" name _ a h) (mock-ReadsAreFree platform _ _);
}

-- the requests of readers
abbrev readers : List (Actor × Request)
readers =
    (reader, propose_echo) ∷ (reader, Request.approve "0" "") ∷ (reader, Request.cancel "0") ∷ []

host-handle_example : (handle broker reader propose_echo start).1.host ≡ start.host
host-handle_example = host-handle broker reads_free reader propose_echo start refl

serve-Moves_example : Moves staged.proposals (serve broker readers staged).proposals
serve-Moves_example = serve-Moves broker readers staged

serve-get_final_example :
    get (serve broker readers rejected_world).proposals "0" ≡ some (row_of Status.rejected)
unfolding get is_final
serve-get_final_example =
    serve-get_final broker readers rejected_world "0" (row_of Status.rejected) refl refl

approve_final_example :
    ((approve broker approver "0" "" rejected_world).0
      ≡ err (refused (why_refused broker approver (row_of Status.rejected))))
    × ((approve broker approver "0" "" rejected_world).1.host ≡ rejected_world.host)
unfolding get is_final
approve_final_example =
    approve_final broker approver "0" "" rejected_world (row_of Status.rejected) refl refl

approve_once_example :
    (p : Row) × ((approve broker approver "0" ""
        (serve broker readers (approve broker approver "0" "" staged).1)).0
      ≡ err (refused (why_refused broker approver p)))
    × ((approve broker approver "0" ""
          (serve broker readers (approve broker approver "0" "" staged).1)).1.host
        ≡ (serve broker readers (approve broker approver "0" "" staged).1).host)
approve_once_example =
    approve_once broker approver approver "0" "" "" answer staged
      (approve broker approver "0" "" staged).1 readers
      (ap (λ (r : Result Answer). (r, (approve broker approver "0" "" staged).1)) approved_answer)

approve-Filed_example :
    Filed "0" Status.succeeded (some (pos 0)) (approve broker approver "0" "" staged).1
approve-Filed_example =
    approve-Filed broker approver "0" "" staged (approve broker approver "0" "" staged).1 answer
      (pos 0)
      (ap (λ (r : Result Answer). (r, (approve broker approver "0" "" staged).1)) approved_answer)
      refl
