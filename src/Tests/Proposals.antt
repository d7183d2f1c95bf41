-- ===== src/Tests/Proposals.antt =====
-- The theorems on proposing and on executing, at concrete inputs.
use msp_fleet_public.Base.{
  false, not, any, contains, ◌≡◌, ◌≢◌, ◌↔◌, refl, some, pos, [], ◌∷◌, eq_iff, inr,
}
use msp_fleet_public.Adapter.Mock.{MockHost, precheck, preconditions_hold}
use msp_fleet_public.Adapter.Mock
use msp_fleet_public.Broker.{World}
use msp_fleet_public.Broker.Actions.{on_host, adapter}
use msp_fleet_public.Exec.{◌>>=◌}
use msp_fleet_public.Failure.{ok, err, refused, forbidden_pattern}
use msp_fleet_public.Params.{validate_params, names}
use msp_fleet_public.Params.Exact.{Fits, validate_params_exact}
use msp_fleet_public.Plan.{number, text, State}
use msp_fleet_public.Platform.{decimal}
use msp_fleet_public.Samples.{broker, start, staged, reader, mock_target, echo_parameters}
use msp_fleet_public.Samples.Scripts.{scripted, script_row, script_world, unreachable, strict, echo}
use msp_fleet_public.ScriptCheck.{forbidden_rules}
use msp_fleet_public.Service.Runs.{execute_script}
use msp_fleet_public.Service.Runs.Guards.{Frozen, host-execute_script-Frozen}
use msp_fleet_public.Service.ProposeScript.{stage_script}
use msp_fleet_public.Service.ProposeScript.Forbidden.{stage_script_forbidden}
use msp_fleet_public.Service.Targets.{resolve_text, validated_operation}
use msp_fleet_public.Service.Targets.Exact.{
  IsValidated, resolve_text_exact, validated_operation_exact,
}
use msp_fleet_public.Service.Targets.Named.{IsNamed}
use msp_fleet_public.Text.{splitlines}
use msp_fleet_public.Value.{str, field, end}

one_not_empty : mock_target.name ≢ ""
one_not_empty e = let h = (eq_iff "one" "").1 e in cc

resolve_text_exact_example : (resolve_text broker start.inventory "one" ≡ ok mock_target) ↔ (
    (mock_target.client_id ≡ broker.client.client_id) × IsNamed start.inventory "one" mock_target)
resolve_text_exact_example =
    resolve_text_exact broker start.inventory "one" mock_target one_not_empty

validated_operation_exact_example :
    (validated_operation broker start.inventory (str "mock.echo") (str "one") echo_parameters
      ≡ ok (echo, mock_target, ("message", str "hello") ∷ []))
    ↔ IsValidated broker start.inventory
        (str "mock.echo")
        (str "one")
        echo_parameters
        echo
        mock_target
        (("message", str "hello") ∷ [])
validated_operation_exact_example =
    validated_operation_exact broker start.inventory (str "mock.echo") (str "one") echo_parameters
      echo mock_target (("message", str "hello") ∷ [])

validate_params_exact_example :
    (validate_params echo echo_parameters ≡ inr (("message", str "hello") ∷ [])) ↔ (
      (any (λ k. not (contains k (names echo.params))) ("message" ∷ []) ≡ false)
      × Fits (("message", str "hello") ∷ []) echo.params (("message", str "hello") ∷ []))
validate_params_exact_example =
    validate_params_exact echo (field "message" (str "hello") end) (("message", str "hello") ∷ [])

abbrev moved_on : World MockHost
moved_on = record staged {
  host = some (record { counter = 5; last_message = ""; last_target = "" });
}

abbrev seen : State
seen = ("counter", number (pos 5)) ∷ ("target", text "mock/one") ∷ []

script_result :
    (execute_script scripted script_row script_world).1.host
    ≡ some (record { counter = 9; last_message = ""; last_target = "" })
unfolding execute_script adapter on_host ◌>>=◌ Mock.run_script Mock.run_bytes Mock.result_of decimal
script_result = refl

script_changes : (execute_script scripted script_row script_world).1.host ≢ script_world.host
script_changes e = cc script_result

host-execute_script-Frozen_example : Frozen scripted script_row script_world
host-execute_script-Frozen_example =
    host-execute_script-Frozen scripted script_row script_world script_changes

stage_script_forbidden_example :
    stage_script strict reader mock_target unreachable "bash" 300 "demo" "none" [] staged
    ≡ (err (refused forbidden_pattern), staged)
unfolding splitlines forbidden_rules
stage_script_forbidden_example =
    stage_script_forbidden strict reader mock_target unreachable "bash" 300 "demo" "none" [] staged
      refl
