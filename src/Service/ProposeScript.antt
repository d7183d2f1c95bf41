-- ===== src/Service/ProposeScript.antt =====
-- `propose_script` of roles/msp_broker/files/broker/service.py. The arguments that the source checks
-- are JSON values; the path and the declared effects are texts.
pub mod Forbidden
use msp_fleet_public.Base.{
  ℕ, zero, suc, ◌+◌, ℤ, pos, negsuc, String, Bool, true, false, not, ◌&&◌, ◌||◌, Option, none, some,
  List, [], ◌∷◌, ◌==◌, ◌<>◌, ltb, leb, nat_eq, length, contains, is_none, if◌then◌else◌,
}
use msp_fleet_public.Adapter.{Adapter, File, regular, Files}
use msp_fleet_public.Broker.{Broker, World, Entry, Scratch}
use msp_fleet_public.Broker.Actions.{
  on_host, except_adapter_error, now, new_id, expire, adapter, present, require_read,
}
use msp_fleet_public.Exec.{Exec, pure, raise, lift, gets, modify, refuse_if, ◌>>=◌, ◌>>◌}
use msp_fleet_public.Failure.{
  Fault, Result, ok, err, refused, scripts_disabled, cannot_run_scripts, interpreter_refused,
  bad_timeout, purpose_required, text_too_long, cannot_open, not_regular, too_big, not_owner,
  forbidden_pattern,
}
use msp_fleet_public.Kinds.{codes}
use msp_fleet_public.Plan.{Plan, State, Script, Finding, Declared, Target, build_plan}
use msp_fleet_public.Policy.{Actor, ScriptPolicy}
use msp_fleet_public.Registry.{high}
use msp_fleet_public.ScriptCheck.{scan, has_forbidden}
use msp_fleet_public.Service.Propose.{new_row, file_proposal}
use msp_fleet_public.Service.Targets.{resolve_target}
use msp_fleet_public.Service.Views.{Summary}
use msp_fleet_public.Text.{strip}
use msp_fleet_public.Value.{Value, null, num, str}

-- `interpreter not in cfg.get("interpreters", [])`
abbrev pub interpreter_of : ScriptPolicy → Value → Result String
interpreter_of cfg (str i) =
    if contains i cfg.interpreters then ok i else err (refused interpreter_refused)
interpreter_of cfg _ = err (refused interpreter_refused)

-- The timeout, with its default; `1 <= timeout <= max`, and a boolean is no integer.
abbrev pub timeout_in : ScriptPolicy → ℕ → Result ℕ
timeout_in cfg t =
    if leb 1 t && leb t cfg.max_timeout_seconds then ok t else err (refused bad_timeout)

abbrev pub timeout_of : ScriptPolicy → Value → Result ℕ
timeout_of cfg null = timeout_in cfg cfg.default_timeout_seconds
timeout_of cfg (num (pos t)) = timeout_in cfg t
timeout_of cfg _ = err (refused bad_timeout)

-- the stated purpose, which is not blank
abbrev pub purpose_of : Value → Result String
purpose_of (str s) = if strip s == "" then err (refused purpose_required) else ok s
purpose_of _ = err (refused purpose_required)

abbrev pub take : ℕ → List ℕ → List ℕ
take zero l = []
take (suc n) [] = []
take (suc n) (x ∷ l) = x ∷ take n l

-- From `os.open` to `os.read`: the bytes that are frozen.
unfoldable pub read_script : ScriptPolicy → Actor → Option Scratch → Result (List ℕ)
read_script cfg actor none = err (refused cannot_open)
read_script cfg actor (some f) =
    if not f.is_regular
    then err (refused not_regular)
    else if ltb cfg.max_bytes f.st_size
    then err (refused too_big)
    else if not (nat_eq actor.uid 0) && not (nat_eq f.st_uid actor.uid)
    then err (refused not_owner)
    else ok (take (suc cfg.max_bytes) f.bytes)

unfoldable pub put_file : String → File → Files → Files
put_file path file files p = if p == path then some file else files p

module _ {H : Type 0} (b : Broker H) where
  abbrev script_path : String → String
  script_path id = b.proposals_dir <> "/" <> id <> "/script"

  -- `makedirs`, `open(..., "wb")`, `write`, `chmod`
  unfoldable pub freeze : String → List ℕ → Exec (World H) (Unit {0})
  unfolding put_file
  freeze path bytes = modify (λ w. record w { files = put_file path (regular bytes) w.files })

  -- the frozen plan of a script
  unfoldable pub script_plan : Target → Script → State → Declared → Plan
  script_plan target script pre_state declared =
      build_plan b.client target.adapter "script.run" target [] "run_script" script.timeout_seconds
        pre_state none (some script) (some declared)

  -- From the new identifier to the answer.
  unfoldable pub stage_script :
      Actor → Target → Adapter H → String → ℕ → String → String → List ℕ → Exec (World H) Summary
  stage_script actor target a interpreter timeout purpose effects bytes = do
    let findings = scan b.platform (b.platform.decode bytes) b.policy.script.forbidden_patterns
    refuse_if (has_forbidden findings) forbidden_pattern
    id ← new_id b
    let path = script_path id
    freeze path bytes
    let digest = b.platform.sha256 bytes
    pre_state ← except_adapter_error (on_host (a.precheck "script.run" target [])) (λ e. pure [])
    let script : Script = record {
      sha256 = digest;
      bytes = length bytes;
      interpreter = interpreter;
      timeout_seconds = timeout;
      findings = findings;
      path = path;
    }
    let declared : Declared = record { purpose = strip purpose; effects = some (strip effects) }
    created ← now b
    file_proposal b
        (new_row b id actor target.adapter "script.run" target [] high
          (script_plan target script pre_state declared) ("APPROVE " <> target.name) created
          pre_state (some declared))
        (Entry.proposed_script id target.id digest actor.uid)

  unfoldable pub propose_script :
      Actor → Value → Value → String → Value → String → Value → Exec (World H) Summary
  unfolding read_script
  propose_script actor ref interpreter file_path purpose effects timeout_seconds = do
    require_read actor
    expire b
    let cfg = b.policy.script
    refuse_if (not cfg.enabled) scripts_disabled
    inventory ← gets (λ w. w.inventory)
    target ← lift (resolve_target b inventory ref)
    a ← adapter b target.adapter
    refuse_if (is_none a.run_script) cannot_run_scripts
    chosen ← lift (interpreter_of cfg interpreter)
    timeout ← lift (timeout_of cfg timeout_seconds)
    stated ← lift (purpose_of purpose)
    refuse_if (ltb 512 (length (codes stated)) || ltb 2048 (length (codes effects))) text_too_long
    found ← gets (λ w. w.scratch file_path)
    bytes ← lift (read_script cfg actor found)
    stage_script actor target a chosen timeout stated effects bytes
