-- ===== src/Plan/Json.antt =====
-- The JSON of a frozen plan (`build_plan` of roles/msp_broker/files/broker/model.py, with the scripts,
-- steps and findings of service.py and scriptcheck.py there), with its keys in the order of `sort_keys`.
pub mod Injective
use msp_fleet_public.Base.{ℕ, pos, String, Option, none, some, List, [], ◌∷◌, ◌++◌, map}
use msp_fleet_public.Params.{Params}
use msp_fleet_public.Plan.{
  Atom, text, flag, number, State, Severity, warning, forbidden, Finding, Script, Step, Declared,
  Plan,
}
use msp_fleet_public.Value.{Value, bool, num, str, obj, arr, Fields, end, field, Items, nil, cons}

abbrev pub dict : List (String × Value) → Fields
dict [] = end
dict ((k, v) ∷ d) = field k v (dict d)

abbrev pub array : List Value → Items
array [] = nil
array (v ∷ vs) = cons v (array vs)

abbrev pub nat : ℕ → Value
nat n = num (pos n)

-- a key that is there only with a value
abbrev pub only {ℓ} : {A : Type ℓ} → String → (A → Value) → Option A → List (String × Value)
only k f none = []
only k f (some a) = (k, f a) ∷ []

abbrev pub atom_json : Atom → Value
atom_json (text s) = str s
atom_json (flag b) = bool b
atom_json (number n) = num n

abbrev pub state_entry : String × Atom → String × Value
state_entry e = (e.0, atom_json e.1)

abbrev pub state_json : State → Value
state_json s = obj (dict (map state_entry s))

abbrev pub params_json : Params → Value
params_json ps = obj (dict ps)

unfoldable pub declared_json : Declared → Value
declared_json d = obj (dict (only "effects" str d.effects ++ ("purpose", str d.purpose) ∷ []))

abbrev pub severity_text : Severity → String
severity_text warning = "HIGH"
severity_text forbidden = "FORBIDDEN"

unfoldable pub finding_json : Finding → Value
finding_json f = obj (
    dict (
      ("label", str f.label)
      ∷ ("line", nat f.line)
      ∷ ("severity", str (severity_text f.severity))
      ∷ ("text", str f.text)
      ∷ []))

unfoldable pub script_json : Script → Value
unfolding finding_json
script_json s = obj (
    dict (
      ("bytes", nat s.bytes)
      ∷ ("findings", arr (array (map finding_json s.findings)))
      ∷ ("interpreter", str s.interpreter)
      ∷ ("path", str s.path)
      ∷ ("sha256", str s.sha256)
      ∷ ("timeout_seconds", nat s.timeout_seconds)
      ∷ []))

unfoldable pub step_json : Step → Value
step_json s = obj (
    dict (
      ("adapter", str s.adapter)
      ∷ ("executor", str s.executor)
      ∷ ("operation", str s.operation)
      ∷ ("parameters", params_json s.parameters)
      ∷ ("target_external_id", str s.target_external_id)
      ∷ ("target_id", str s.target_id)
      ∷ ("target_name", str s.target_name)
      ∷ []))

abbrev pub steps_json : List Step → Value
steps_json l = arr (array (map step_json l))

-- `build_plan`
unfoldable pub plan_json : Plan → Value
unfolding declared_json script_json step_json
plan_json p = obj (
    dict (
      ("adapter", str p.adapter)
      ∷ (only "ai_declared" declared_json p.ai_declared
          ++ ("client_id", str p.client_id)
            ∷ ("executor", str p.executor)
            ∷ ("operation", str p.operation)
            ∷ ("parameters", params_json p.parameters)
            ∷ ("preconditions", state_json p.preconditions)
            ∷ (only "script" script_json p.script
                ++ ("site_id", str p.site_id)
                  ∷ (only "steps" steps_json p.steps
                      ++ ("target_external_id", str p.target_external_id)
                        ∷ ("target_id", str p.target_id)
                        ∷ ("target_name", str p.target_name)
                        ∷ ("timeout_seconds", nat p.timeout_seconds)
                        ∷ ("version", nat p.version)
                        ∷ [])))))
