-- ===== src/Adapter/Proxmox.antt =====
-- roles/msp_broker/files/broker/proxmox.py: prechecks, drift test and execution.
pub mod Plans
pub mod Reads
use msp_fleet_public.Adapter.Remote.{
  Runner, allowed, first_of_lines, first_line, parse_status, message, exit_check, run, ask,
}
use msp_fleet_public.Adapter.Guests.{read}
use package.text.Mathlib.Text.{starts_with}
use msp_fleet_public.Base.{
  ℕ, suc, ◌+◌, ℤ, pos, negsuc, String, Bool, true, false, not, Option, none, some, List, [], ◌∷◌,
  ◌==◌, ◌<>◌, nat_eq, any, is_none, if◌then◌else◌,
}
use msp_fleet_public.Adapter.{Adapter, File, regular, symlink, Files}
use msp_fleet_public.Exec.{Exec, pure, raise, lift, ◌>>=◌, ◌>>◌}
use msp_fleet_public.Failure.{Result, ok, err, crash, adapter_error}
use msp_fleet_public.Params.{Params}
use msp_fleet_public.Plan.{State, Atom, text, flag, found_eq, Target, Plan, ExecResult}
use msp_fleet_public.Platform.{Platform, clamp, sanitize, decimal, int_text}
use msp_fleet_public.Text.{strip, splitlines, has_part}
use msp_fleet_public.Value.{Value, str, lookup}

-- `EXT`
unfoldable pub ext : List (String × String × String)
ext =
    ("vm_start", "qm", "start")
    ∷ ("vm_shutdown", "qm", "shutdown")
    ∷ ("vm_reboot", "qm", "reboot")
    ∷ ("vm_stop", "qm", "stop")
    ∷ ("ct_start", "pct", "start")
    ∷ ("ct_shutdown", "pct", "shutdown")
    ∷ ("ct_reboot", "pct", "reboot")
    ∷ ("ct_stop", "pct", "stop")
    ∷ []

abbrev lookup_ext : String → List (String × String × String) → Option (String × String)
lookup_ext k [] = none
lookup_ext k ((j, tool, action) ∷ l) = if j == k then some (tool, action) else lookup_ext k l

-- `parameters[key]`, put into an argv: a validated pool or unit is a text
unfoldable pub text_of : String → Params → Result String
text_of key parameters = elim (lookup key parameters) [ some (str s) ↦ ok s | _ ↦ err crash ]

-- `preconditions_hold`: the first of the three keys that is stored decides
unfoldable pub preconditions_hold : State → State → Bool
unfolding found_eq
preconditions_hold [] fresh = true
preconditions_hold (e ∷ stored) fresh =
    let held = λ (k : String). lookup k (e ∷ stored) in
    let seen = λ (k : String). lookup k fresh in
    if not (is_none (held "status"))
    then found_eq (held "status") (seen "status")
    else if not (is_none (held "active"))
    then found_eq (held "active") (seen "active")
    else if not (is_none (held "node"))
    then found_eq (held "node") (seen "node")
    else if not (is_none (held "exists"))
    then elim (seen "exists") [ some (flag b) ↦ b | _ ↦ false ]
    else true

module _ {H : Type 0} (p : Platform) (runner : Runner H) (observed : H → String) where
  unfoldable pub precheck : String → Target → Params → Exec H State
  precheck operation target parameters =
      if starts_with operation "vm."
      then (do
        (rc, out, errors) ← ask p runner ("qm-status" ∷ target.external_id ∷ [])
        pure (("vmid", text target.external_id) ∷ ("status", text (parse_status p out)) ∷ []))
      else if starts_with operation "ct."
      then (do
        (rc, out, errors) ← ask p runner ("pct-status" ∷ target.external_id ∷ [])
        pure (("vmid", text target.external_id) ∷ ("status", text (parse_status p out)) ∷ []))
      else if operation == "zpool.scrub"
      then (do
        pool ← lift (text_of "pool" parameters)
        (rc, out, errors) ← ask p runner ("zpool-status" ∷ [])
        pure (
            ("pool", text pool)
            ∷ (
              "exists",
              flag (p.re_search ("(?m)^\\s*pool:\\s+" <> p.re_escape pool <> "\\s*$") out),
            )
            ∷ ("scrub", flag (has_part "scrub in progress" out))
            ∷ []))
      else if operation == "service.restart"
      then (do
        unit ← lift (text_of "unit" parameters)
        (rc, out, errors) ← run p runner (0 ∷ 3 ∷ []) ("service-status" ∷ unit ∷ []) none 30
        pure (("unit", text unit) ∷ ("active", flag (strip out == "active")) ∷ []))
      else if operation == "script.run"
      then (do
        (rc, out, errors) ← ask p runner ("status" ∷ [])
        pure (("node", text (first_line out)) ∷ []))
      else pure []

  -- The argv that an executor stands for.
  unfoldable pub argv_for : String → Target → Params → String → Result (List String)
  unfolding ext text_of
  argv_for executor target parameters operation = elim (lookup_ext executor ext) [
    | some (tool, action) ↦ ok ("exec" ∷ tool ∷ action ∷ target.external_id ∷ [])
    | none ↦
        if executor == "zpool_scrub"
        then elim (text_of "pool" parameters) [
          | ok pool ↦ ok ("exec" ∷ "zpool" ∷ "scrub" ∷ pool ∷ [])
          | err e ↦ err e
        ]
        else if executor == "service_restart"
        then elim (text_of "unit" parameters) [
          | ok unit ↦ ok ("exec" ∷ "systemctl" ∷ "restart" ∷ unit ∷ [])
          | err e ↦ err e
        ]
        else err (adapter_error ("operation is not implemented: " <> operation))
  ]

  abbrev result_of : String → String → ℤ → String → ExecResult
  result_of out errors rc transcript = record {
    rc = rc;
    stdout = clamp p 65536 out;
    stderr = clamp p 65536 errors;
    pre_state = [];
    post_state = [];
    transcript = transcript;
  }

  unfoldable pub execute : String → Target → Params → Plan → Exec H ExecResult
  unfolding argv_for
  execute operation target parameters plan = do
    argv ← lift (argv_for plan.executor target parameters operation)
    (rc, out, errors) ← run p runner (0 ∷ []) argv none (plan.timeout_seconds + 30)
    pure (result_of out errors rc "")

  unfoldable pub run_bytes : String → List ℕ → ℕ → Exec H ExecResult
  run_bytes interpreter bytes timeout = do
    (rc, out, errors) ←
        run p runner (0 ∷ []) ("run-script" ∷ interpreter ∷ decimal timeout ∷ []) (some bytes)
          (timeout + 30)
    pure (result_of out errors rc (sanitize p (out <> errors)))

  -- a file that cannot be opened raises an OSError
  unfoldable pub run_script : String → String → ℕ → Files → Exec H ExecResult
  unfolding run_bytes
  run_script interpreter path timeout files = elim (files path) [
    | none ↦ raise crash
    | some (regular bytes) ↦ run_bytes interpreter bytes timeout
    | some (symlink bytes) ↦ run_bytes interpreter bytes timeout
  ]

  abbrev pub proxmox : Adapter H
  proxmox = record {
    read = read p runner observed;
    precheck = precheck;
    preconditions_hold = some preconditions_hold;
    execute = execute;
    run_script = some run_script;
  }
