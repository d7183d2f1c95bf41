-- ===== src/Plan/Json/Injective.antt =====
-- The JSON of a plan determines the plan (roles/msp_broker/files/broker/model.py).
use msp_fleet_public.Base.{
  ℕ, String, ◌≡◌, ◌≢◌, ◌==◌, eq_iff, false, refl, sym, ap, ◌∙◌, Option, none, some, List, [], ◌∷◌,
  ◌++◌, map, arith,
}
use msp_fleet_public.Params.{Params}
use msp_fleet_public.Plan.{
  Atom, text, flag, number, State, Severity, warning, forbidden, Finding, Script, Step, Declared,
  Plan,
}
use msp_fleet_public.Plan.Json.{
  dict, array, nat, only, atom_json, state_entry, state_json, params_json, severity_text,
  declared_json, finding_json, script_json, step_json, steps_json, plan_json,
}
use msp_fleet_public.Value.{Value, str, obj, Fields}

dict-injective : (a b : List (String × Value)) → dict a ≡ dict b → a ≡ b
dict-injective [] [] e = refl
dict-injective ((k, v) ∷ a) ((j, w) ∷ b) e = ground (arith, dict-injective a b)
dict-injective [] ((j, w) ∷ b) e = cc
dict-injective ((k, v) ∷ a) [] e = cc

array-injective {ℓ} :
    {A : Type ℓ} (f : A → Value) (one : (x y : A) → f x ≡ f y → x ≡ y) (l m : List A)
    → array (map f l) ≡ array (map f m)
    → l ≡ m
array-injective f one [] [] e = refl
array-injective f one (x ∷ l) (y ∷ m) e = cc (one x y (cc), array-injective f one l m (cc))
array-injective f one [] (y ∷ m) e = cc
array-injective f one (x ∷ l) [] e = cc

severity_text-injective : (s t : Severity) → severity_text s ≡ severity_text t → s ≡ t
severity_text-injective warning warning e = refl
severity_text-injective forbidden forbidden e = refl
severity_text-injective warning forbidden e = cc
severity_text-injective forbidden warning e = cc

finding_json-injective : (f g : Finding) → finding_json f ≡ finding_json g → f ≡ g
unfolding finding_json
finding_json-injective f g e =
    let s = severity_text-injective f.severity g.severity (cc) in ground (arith, s)

script_json-injective : (s t : Script) → script_json s ≡ script_json t → s ≡ t
unfolding script_json
script_json-injective s t e =
    let f = array-injective finding_json finding_json-injective s.findings t.findings (cc) in
    ground (arith, f)

atom_json-injective : (a b : Atom) → atom_json a ≡ atom_json b → a ≡ b
atom_json-injective (text s) (text t) e = cc
atom_json-injective (flag s) (flag t) e = cc
atom_json-injective (number s) (number t) e = cc
atom_json-injective (text s) (flag t) e = cc
atom_json-injective (text s) (number t) e = cc
atom_json-injective (flag s) (text t) e = cc
atom_json-injective (flag s) (number t) e = cc
atom_json-injective (number s) (text t) e = cc
atom_json-injective (number s) (flag t) e = cc

entries_injective : (s t : State) → map state_entry s ≡ map state_entry t → s ≡ t
entries_injective [] [] e = refl
entries_injective ((k, a) ∷ s) ((j, b) ∷ t) e =
    cc (atom_json-injective a b (cc), entries_injective s t (cc))
entries_injective [] ((j, b) ∷ t) e = cc
entries_injective ((k, a) ∷ s) [] e = cc

state_json-injective : (s t : State) → state_json s ≡ state_json t → s ≡ t
state_json-injective s t e = entries_injective s t (dict-injective _ _ (cc))

step_json-injective : (s t : Step) → step_json s ≡ step_json t → s ≡ t
unfolding step_json
step_json-injective s t e =
    let p = dict-injective s.parameters t.parameters (cc) in ground (arith, p)

-- Fields that begin with an optional key determine whether it is there.
only-injective {ℓ} :
    {A : Type ℓ} (f : A → Value) (one : (x y : A) → f x ≡ f y → x ≡ y) (k j : String)
    (o o' : Option A) (v w : Value) (r r' : List (String × Value))
    → k ≢ j
    → only k f o ++ (j, v) ∷ r ≡ only k f o' ++ (j, w) ∷ r'
    → (o ≡ o') × (v ≡ w) × (r ≡ r')
only-injective f one k j none none v w r r' n e = (refl, cc, cc)
only-injective f one k j (some x) (some y) v w r r' n e = (ap some (one x y (cc)), cc, cc)
only-injective f one k j none (some y) v w r r' n e = absurd (n (cc))
only-injective f one k j (some x) none v w r r' n e = absurd (n (cc))

pub ne_of_test : (s t : String) → (s == t) ≡ false → s ≢ t
ne_of_test s t h e = ground (arith, eq_iff s t)

str-injective : (s t : String) → str s ≡ str t → s ≡ t
str-injective s t e = cc

declared_json-injective : (d d' : Declared) → declared_json d ≡ declared_json d' → d ≡ d'
unfolding declared_json
declared_json-injective d d' e =
    let (effects, purpose, rest) =
      only-injective str str-injective "effects" "purpose" d.effects d'.effects (str d.purpose)
        (str d'.purpose) [] [] (ne_of_test "effects" "purpose" refl) (dict-injective _ _ (cc)) in
    ground (arith, effects, purpose)

steps_json-injective : (l m : List Step) → steps_json l ≡ steps_json m → l ≡ m
steps_json-injective l m e = array-injective step_json step_json-injective l m (cc)

module _ (p : Plan) where
  abbrev last_fields : List (String × Value)
  last_fields =
      ("target_id", str p.target_id)
      ∷ ("target_name", str p.target_name)
      ∷ ("timeout_seconds", nat p.timeout_seconds)
      ∷ ("version", nat p.version)
      ∷ []

  abbrev steps_on : List (String × Value)
  steps_on =
      only "steps" steps_json p.steps
      ++ ("target_external_id", str p.target_external_id) ∷ last_fields

  abbrev script_on : List (String × Value)
  script_on = only "script" script_json p.script ++ ("site_id", str p.site_id) ∷ steps_on

  abbrev client_on : List (String × Value)
  client_on =
      ("executor", str p.executor)
      ∷ ("operation", str p.operation)
      ∷ ("parameters", params_json p.parameters)
      ∷ ("preconditions", state_json p.preconditions)
      ∷ script_on

  abbrev declared_on : List (String × Value)
  declared_on =
      only "ai_declared" declared_json p.ai_declared ++ ("client_id", str p.client_id) ∷ client_on

  plan_json_fields : plan_json p ≡ obj (dict (("adapter", str p.adapter) ∷ declared_on))
  unfolding plan_json
  plan_json_fields = refl

obj-injective : (a b : Fields) → obj a ≡ obj b → a ≡ b
obj-injective a b e = cc

-- A field that is always there, in front of others.
field-injective :
    (k : String) (v w : Value) (r r' : List (String × Value))
    → (k, v) ∷ r ≡ (k, w) ∷ r'
    → (v ≡ w) × (r ≡ r')
field-injective k v w r r' e = (cc, cc)

nat-injective : (m n : ℕ) → nat m ≡ nat n → m ≡ n
nat-injective m n e = cc

params_json-injective : (a b : Params) → params_json a ≡ params_json b → a ≡ b
params_json-injective a b e = dict-injective a b (obj-injective _ _ e)

module _ (p q : Plan) where
  same_last :
      last_fields p ≡ last_fields q
      → (p.target_id ≡ q.target_id)
        × (p.target_name ≡ q.target_name)
        × (p.timeout_seconds ≡ q.timeout_seconds)
        × (p.version ≡ q.version)
  same_last e =
      let (a, e1) = field-injective "target_id" _ _ _ _ e in
      let (b, e2) = field-injective "target_name" _ _ _ _ e1 in
      let (c, e3) = field-injective "timeout_seconds" _ _ _ _ e2 in
      let (d, e4) = field-injective "version" _ _ _ _ e3 in
      (str-injective _ _ a, str-injective _ _ b, nat-injective _ _ c, nat-injective _ _ d)

  pub plan_json-injective : plan_json p ≡ plan_json q → p ≡ q
  plan_json-injective e =
      let fields =
        dict-injective (("adapter", str p.adapter) ∷ declared_on p)
          (("adapter", str q.adapter) ∷ declared_on q)
          (obj-injective _ _ (sym (plan_json_fields p) ∙ e ∙ plan_json_fields q)) in
      let (adapter, e1) = field-injective "adapter" _ _ _ _ fields in
      let (declared, client, e2) =
        only-injective declared_json declared_json-injective "ai_declared" "client_id" p.ai_declared
          q.ai_declared (str p.client_id) (str q.client_id) (client_on p) (client_on q)
          (ne_of_test "ai_declared" "client_id" refl) e1 in
      let (executor, e3) = field-injective "executor" _ _ _ _ e2 in
      let (operation, e4) = field-injective "operation" _ _ _ _ e3 in
      let (parameters, e5) = field-injective "parameters" _ _ _ _ e4 in
      let (preconditions, e6) = field-injective "preconditions" _ _ _ _ e5 in
      let (script, site, e7) =
        only-injective script_json script_json-injective "script" "site_id" p.script q.script
          (str p.site_id) (str q.site_id) (steps_on p) (steps_on q)
          (ne_of_test "script" "site_id" refl) e6 in
      let (steps, external, e8) =
        only-injective steps_json steps_json-injective "steps" "target_external_id" p.steps q.steps
          (str p.target_external_id) (str q.target_external_id) (last_fields p) (last_fields q)
          (ne_of_test "steps" "target_external_id" refl) e7 in
      let last = same_last e8 in
      λ i. record {
        version = last.3 i;
        client_id = str-injective p.client_id q.client_id client i;
        site_id = str-injective p.site_id q.site_id site i;
        adapter = str-injective p.adapter q.adapter adapter i;
        operation = str-injective p.operation q.operation operation i;
        target_id = last.0 i;
        target_name = last.1 i;
        target_external_id = str-injective p.target_external_id q.target_external_id external i;
        parameters = params_json-injective p.parameters q.parameters parameters i;
        executor = str-injective p.executor q.executor executor i;
        timeout_seconds = last.2 i;
        preconditions = state_json-injective p.preconditions q.preconditions preconditions i;
        steps = steps i;
        script = script i;
        ai_declared = declared i;
      }
