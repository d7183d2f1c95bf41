-- ===== src/Adapter/Mock.antt =====
-- roles/msp_broker/files/broker/mock.py. The host is the adapter's state file, which is missing (or
-- unreadable) or holds the three fields; a script run is a parameter.
pub mod Stale
pub mod Saved
use msp_fleet_public.Base.{
  arith, refl, ◌≡◌, ℕ, ◌+◌, ℤ, pos, String, Bool, true, false, Option, none, some, List, [], ◌∷◌,
  ◌==◌, ◌<>◌, if◌then◌else◌,
}
use msp_fleet_public.Adapter.{Adapter, File, regular, symlink, Files, ReadsAreFree}
use msp_fleet_public.Exec.{Exec, pure, raise, gets, modify, ◌>>=◌, ◌>>◌}
use msp_fleet_public.Failure.{Result, ok, err, adapter_error, crash}
use msp_fleet_public.Params.{Params}
use msp_fleet_public.Plan.{State, Atom, text, number, found_eq, Target, Plan, ExecResult}
use msp_fleet_public.Platform.{Platform, clamp, sanitize, decimal}
use msp_fleet_public.Value.{Value, num, str, obj, field, end, lookup}

pub record MockState : Type 0 where
  pub counter : ℕ
  pub last_message : String
  pub last_target : String

abbrev pub MockHost : Type 0
MockHost = Option MockState

-- `_load`
unfoldable pub load : MockHost → MockState
load none = record { counter = 0; last_message = ""; last_target = "" }
load (some s) = s

-- The state as the dictionary that the source keeps.
abbrev pub dictionary : MockState → State
dictionary s =
    ("counter", number (pos s.counter))
    ∷ ("last_message", text s.last_message)
    ∷ ("last_target", text s.last_target)
    ∷ []

-- The same as the JSON object that a read shows.
abbrev state_value : MockState → Value
state_value s = obj (
    field "counter" (num (pos s.counter))
      (field "last_message" (str s.last_message) (field "last_target" (str s.last_target) end)))

-- `read`, with the time that the adapter's clock shows
unfoldable pub read : (MockHost → String) → List Target → String → Value → Exec MockHost Value
unfolding load
read observed inventory verb args h =
    if verb == "state"
    then (
      ok (
          obj (
            field "source" (str "mock_adapter")
              (field "observed_at" (str (observed h)) (field "state" (state_value (load h)) end)))),
      h,
    )
    else (err (adapter_error ("unknown read verb: " <> verb)), h)

unfoldable pub precheck : String → Target → Params → Exec MockHost State
unfolding load
precheck operation target parameters =
    gets (λ h. ("counter", number (pos (load h).counter)) ∷ ("target", text target.id) ∷ [])

-- `stored.get("counter") == fresh.get("counter")`
unfoldable pub preconditions_hold : State → State → Bool
unfolding found_eq
preconditions_hold stored fresh = found_eq (lookup "counter" stored) (lookup "counter" fresh)

-- `parameters.get("message", "")`, for a parameter that was validated as a message
abbrev message_of : Params → String
message_of parameters = elim (lookup "message" parameters) [ some (str s) ↦ s | _ ↦ "" ]

-- the state after a run that does not fail
unfoldable pub after_run : String → Target → Params → MockState → MockState
after_run operation target parameters before = record {
  counter = before.counter + 1;
  last_message = if operation == "mock.echo" then message_of parameters else before.last_message;
  last_target = target.id;
}

unfoldable pub execute : String → Target → Params → Plan → Exec MockHost ExecResult
unfolding load after_run
execute operation target parameters plan h =
    let before = load h in
    let after = after_run operation target parameters before in
    if operation == "mock.fail"
    then (
      ok (record {
        rc = pos 1;
        stdout = "";
        stderr = "deliberate failure\n";
        pre_state = dictionary before;
        post_state = dictionary before;
        transcript = "";
      }),
      h,
    )
    else (
      ok (record {
        rc = pos 0;
        stdout = "mock " <> operation <> " ok\n";
        stderr = "";
        pre_state = dictionary before;
        post_state = dictionary after;
        transcript = "";
      }),
      some after,
    )

-- What `subprocess.run` gives: the exit code and both outputs, or the output before the timeout, or
-- another exception (no such interpreter, an output that is not UTF-8, no folder to work in).
pub data Outcome : Type 0 where
  finished : ℤ → String → String → Outcome
  timed_out : String → Outcome
  raised : Outcome

module _ (p : Platform) (spawn : String → List ℕ → ℕ → MockHost → Outcome × MockHost)
    (observed : MockHost → String) where
  unfoldable pub result_of : ℕ → Outcome → Result ExecResult
  result_of timeout (finished rc out errors) = ok (record {
    rc = rc;
    stdout = clamp p 65536 out;
    stderr = clamp p 65536 errors;
    pre_state = [];
    post_state = [];
    transcript = sanitize p (out <> errors);
  })
  result_of timeout (timed_out out) = ok (record {
    rc = pos 124;
    stdout = clamp p 65536 out;
    stderr = "timed out after " <> decimal timeout <> "s\n";
    pre_state = [];
    post_state = [];
    transcript = "timed out after " <> decimal timeout <> "s";
  })
  result_of timeout raised = err crash

  -- the interpreter is started on the file that the path leads to
  unfoldable pub run_bytes : String → List ℕ → ℕ → Exec MockHost ExecResult
  unfolding result_of
  run_bytes interpreter bytes timeout h =
      let (outcome, h') = spawn interpreter bytes timeout h in (result_of timeout outcome, h')

  unfoldable pub run_script : String → String → ℕ → Files → Exec MockHost ExecResult
  unfolding run_bytes
  run_script interpreter path timeout files = elim (files path) [
    | none ↦ raise (adapter_error "frozen script is missing")
    | some (regular bytes) ↦ run_bytes interpreter bytes timeout
    | some (symlink bytes) ↦ run_bytes interpreter bytes timeout
  ]

  abbrev pub mock : Adapter MockHost
  mock = record {
    read = read observed;
    precheck = precheck;
    preconditions_hold = some preconditions_hold;
    execute = execute;
    run_script = some run_script;
  }

  read_reads :
      (inventory : List Target) (verb : String) (args : Value) (h : MockHost)
      → (read observed inventory verb args h).1 ≡ h
  unfolding read
  read_reads inventory verb args h = ground arith

  -- The precheck and the read of the mock adapter only read.
  pub mock-ReadsAreFree : ReadsAreFree mock
  unfolding precheck
  mock-ReadsAreFree = record {
    precheck_reads = λ operation target parameters h. refl;
    read_reads = read_reads;
  }
