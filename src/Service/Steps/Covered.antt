-- ===== src/Service/Steps/Covered.antt =====
-- The risk of a plan (roles/msp_broker/files/broker/service.py).
use native.Mathlib.Nat.{le_trans, le_refl}
use msp_fleet_public.Base.{◌≤◌, false, ◌≡◌, refl, Option, none, some, List, [], ◌∷◌, arith, subst}
use msp_fleet_public.Broker.{Broker}
use msp_fleet_public.Failure.{Result, ok, err, ◌>>=◌}
use msp_fleet_public.Params.{Params}
use msp_fleet_public.Plan.{Step, Target}
use msp_fleet_public.Registry.{Operation, Risk, risk_order, is_forbidden, get_operation}
use msp_fleet_public.Service.Steps.{raise_risk, freeze_steps, step_of}
use msp_fleet_public.Service.Targets.{validated_operation}
use msp_fleet_public.Service.Targets.Exact.{validated_operation-IsValidated, forbidden_iff}
use msp_fleet_public.Value.{Value, obj}

-- A frozen step is of a registered operation that is not FORBIDDEN and is at most as risky as the
-- plan.
pub record IsCovered (risk : Risk) (s : Step) : Type 0 where
  pub op : Operation
  pub known : get_operation s.operation ≡ some op
  pub permitted : is_forbidden op.risk ≡ false
  pub at_most : risk_order op.risk ≤ risk_order risk

abbrev pub AllCovered : Risk → List Step → Type 0
AllCovered risk [] = Unit
AllCovered risk (s ∷ steps) = IsCovered risk s × AllCovered risk steps

-- The same of the steps that a plan may have.
abbrev pub PlanCovered : Risk → Option (List Step) → Type 0
PlanCovered risk none = Unit
PlanCovered risk (some steps) = AllCovered risk steps

raise_risk-le :
    (r s : Risk)
    → (risk_order r ≤ risk_order (raise_risk r s)) × (risk_order s ≤ risk_order (raise_risk r s))
unfolding raise_risk risk_order
raise_risk-le r s = ground arith

raise_risk_permitted :
    (r s : Risk)
    → is_forbidden r ≡ false
    → is_forbidden s ≡ false
    → is_forbidden (raise_risk r s) ≡ false
unfolding raise_risk is_forbidden
raise_risk_permitted r s h k = ground arith

-- What `freeze_steps` gives of the steps and the risk, from the risk `start`.
pub record IsRisk (start : Risk) (steps : List Step) (final : Risk) : Type 0 where
  pub covered : AllCovered final steps
  pub no_less : risk_order start ≤ risk_order final
  pub permitted : is_forbidden start ≡ false → is_forbidden final ≡ false

module _ {H : Type 0} (b : Broker H) (inventory : List Target) where
  -- The induction: one more step in front.
  covered_step :
      (start final : Risk) (op : Operation) (target : Target) (clean : Params) (steps : List Step)
      → get_operation op.name ≡ some op
      → is_forbidden op.risk ≡ false
      → IsRisk (raise_risk start op.risk) steps final
      → IsRisk start (step_of b op target clean ∷ steps) final
  covered_step start final op target clean steps known permitted r = record {
    covered = (
      record {
        op = op;
        known = known;
        permitted = permitted;
        at_most = le_trans (raise_risk-le start op.risk).1 r.no_less;
      },
      r.covered,
    );
    no_less = le_trans (raise_risk-le start op.risk).0 r.no_less;
    permitted = λ h. r.permitted (raise_risk_permitted start op.risk h permitted);
  }

  abbrev both : List Step → Risk → List Step × Risk
  both steps risk = (steps, risk)

  ended :
      (start final : Risk) (steps : List Step)
      → ok (both [] start) ≡ ok (steps, final)
      → IsRisk start steps final
  ended start final steps h =
      let e : both [] start ≡ both steps final = cc in
      subst (λ (y : List Step × Risk). IsRisk start y.0 y.1) e
        (record { covered = tt; no_less = le_refl _; permitted = λ k. k })

  -- The later steps, given what one step adds to them.
  rest_IsRisk :
      (start final : Risk) (op : Operation) (target : Target) (clean : Params) (steps : List Step)
      (r : Result (List Step × Risk))
      → get_operation op.name ≡ some op
      → is_forbidden op.risk ≡ false
      → ((later : List Step) (last : Risk)
          → r ≡ ok (later, last)
          → IsRisk (raise_risk start op.risk) later last)
      → (r >>= λ y. ok (both (step_of b op target clean ∷ y.0) y.1)) ≡ ok (steps, final)
      → IsRisk start steps final
  rest_IsRisk start final op target clean steps (ok (later, last)) known permitted ih h =
      let e : both (step_of b op target clean ∷ later) last ≡ both steps final = cc in
      subst (λ (y : List Step × Risk). IsRisk start y.0 y.1) e
        (covered_step start last op target clean later known permitted (ih later last refl))
  rest_IsRisk start final op target clean steps (err x) known permitted ih h = cc

  -- One step and the later ones, given what validation says of it.
  step_IsRisk :
      (start final : Risk) (vs : List Value) (steps : List Step)
      (x : Result (Operation × Target × Params))
      → ((op : Operation) (target : Target) (clean : Params)
          → x ≡ ok (op, target, clean)
          → (get_operation op.name ≡ some op) × (is_forbidden op.risk ≡ false))
      → ((s f : Risk) (later : List Step)
          → freeze_steps b inventory vs s ≡ ok (later, f)
          → IsRisk s later f)
      → (x >>= λ y. freeze_steps b inventory vs (raise_risk start y.0.risk) >>= λ z.
          ok (both (step_of b y.0 y.1 y.2 ∷ z.0) z.1))
        ≡ ok (steps, final)
      → IsRisk start steps final
  step_IsRisk start final vs steps (ok (op, target, clean)) valid ih h =
      rest_IsRisk start final op target clean steps _ (valid op target clean refl).0
        (valid op target clean refl).1 (λ later last e. ih _ last later e) h
  step_IsRisk start final vs steps (err x) valid ih h = cc

  registered_step :
      (operation ref parameters : Value) (op : Operation) (target : Target) (clean : Params)
      → validated_operation b inventory operation ref parameters ≡ ok (op, target, clean)
      → (get_operation op.name ≡ some op) × (is_forbidden op.risk ≡ false)
  unfolding get_operation
  registered_step operation ref parameters op target clean e =
      let v =
        validated_operation-IsValidated b inventory operation ref parameters op target clean e in
      (v.known.entry, (forbidden_iff op.risk).1 v.permitted)

  -- Every step of a frozen plan is of a registered operation that is not FORBIDDEN and is at most as
  -- risky as the plan, and the risk of the plan is itself not FORBIDDEN if the start was not.
  pub freeze_steps-IsRisk :
      (vs : List Value) (start final : Risk) (steps : List Step)
      → freeze_steps b inventory vs start ≡ ok (steps, final)
      → IsRisk start steps final
  unfolding freeze_steps
  freeze_steps-IsRisk [] start final steps h = ended start final steps h
  freeze_steps-IsRisk (obj fs ∷ vs) start final steps h =
      step_IsRisk start final vs steps _ (registered_step _ _ _)
        (λ s f later e. freeze_steps-IsRisk vs s f later e) h
  freeze_steps-IsRisk (v ∷ vs) start final steps h = cc
