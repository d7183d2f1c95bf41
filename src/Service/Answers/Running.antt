-- ===== src/Service/Answers/Running.antt =====
-- The run of an approved proposal comes to an answer with a return code
-- (roles/msp_broker/files/broker/service.py).

pub mod Approving
use msp_fleet_public.Base.{
  ℕ, suc, ◌+◌, ◌≤◌, ◌<◌, ℤ, String, Bool, true, false, not, ◌&&◌, ◌||◌, ◌≡◌, refl, sym, ap, ◌∙◌,
  subst, Option, none, some, List, arith, ◌==◌, eq_refl, is_none, leb, Bool-cases, Option-cases,
  inl, inr,
}
use msp_fleet_public.Broker.{Broker, World}
use msp_fleet_public.Broker.Actions.{own_target, except_all, handle_all}
use msp_fleet_public.Exec.{Exec, lift, modify, ◌>>=◌}
use msp_fleet_public.Exec.Rules.{Post, Triple, Triple-bind, Triple-fact, Triple-pure}
use msp_fleet_public.Failure.{Fault, Result, ok, err}
use msp_fleet_public.Plan.{ExecResult, Target}
use msp_fleet_public.Platform.{Platform, plan_hash}
use msp_fleet_public.Service.Answers.{
  Never, Present, Still, Present-frame, now-Present, log-Present, now-Still, write_row-Present,
  get_row-Present, get_row-Still,
}
use msp_fleet_public.Service.Execute.{
  Answer, guarded_run, outcome, file_result, run_and_record, run_resolved, execute,
}
use msp_fleet_public.Service.Runs.Quiet.{run_row-Keeps}
use msp_fleet_public.Service.Views.{write_receipt, stamp, script_part, script_receipt}
use msp_fleet_public.Store.{inventory_get}
use msp_fleet_public.Store.Moves.{frozen}
use msp_fleet_public.Store.Rows.{Row, Status, ScriptReceipt}

-- A script proposal has its script.
abbrev pub has_script : Row → Bool
has_script p = not (p.operation == "script.run") || not (is_none p.plan.script)

-- The row has the frozen columns of `p`.
abbrev pub IsOf : Row → Row → Type 0
IsOf p r = frozen r ≡ frozen p

abbrev pub OfStatus : Row → Status → Row → Type 0
OfStatus p status r = IsOf p r × (r.status ≡ status)

has_script-frozen : (p r : Row) → IsOf p r → has_script p ≡ true → has_script r ≡ true
unfolding frozen
has_script-frozen p r e h = rw (ap (λ (x : Row). has_script x) e) h

script_found :
    (p : Platform) (r : Row) (result : Option ExecResult)
    → has_script r ≡ true
    → (s : Option ScriptReceipt) × (script_part p r result ≡ ok s)
script_found p r result h = elim (Bool-cases (r.operation == "script.run")) [
  | inl e ↦ elim (Option-cases r.plan.script) [
    | inl n ↦ absurd (ground arith)
    | inr (s, f) ↦ (some (script_receipt p result s), rw (e, f) refl)
  ]
  | inr e ↦ (none, rw e refl)
]

ends_well :
    {S A : Type 0} (P : S → Type 0) (r : Result A × S) (handler : Fault → A)
    → Post (λ _. P) P r
    → Post (λ _. P) Never (handle_all handler r)
ends_well P (ok a, w) handler p = p
ends_well P (err e, w) handler p = p

module _ {H : Type 0} (b : Broker H) (id : String) where
  lift_ok :
      {A B : Type 0} {P : World H → Type 0} {R : B → World H → Type 0} (r : Result A) (a : A)
      (f : A → Exec (World H) B)
      → r ≡ ok a
      → Triple P (f a) R Never
      → Triple P (lift r >>= f) R Never
  unfolding ◌>>=◌
  lift_ok r a f e t = rw e (record { at = t.at })

  module _ {Q : Row → Type 0} where
    stamp-Present : (o : Option ℕ) → Triple (Present id Q) (stamp b o) (λ u. Present id Q) Never
    stamp-Present none = Triple-bind _ _ (now-Present b id) λ t. Triple-pure _ (λ w p. p)
    stamp-Present (some t) = Triple-pure _ (λ w p. p)

    write_receipt-Present :
        (r : Row) (status : Status) (approver : String) (result : Option ExecResult)
        → has_script r ≡ true
        → Triple (Present id Q) (write_receipt b r status approver result) (λ u. Present id Q) Never
    unfolding write_receipt
    write_receipt-Present r status approver result h =
        let (s, e) = script_found b.platform r result h in
        lift_ok _ s _ e (
          Triple-bind _ _ (stamp-Present r.execution_finished_at)
            λ u. record { at = λ w p. record { row = p.row; found = p.found; fact = p.fact } })

    guarded_run-Present :
        (p : Row) (target : Target)
        → Triple (Present id Q) (guarded_run b p target) (λ _. Present id Q) Never
    unfolding guarded_run except_all
    guarded_run-Present p target = record {
      at = λ w here.
          ends_well (Present id Q) _ _ ((run_row-Keeps b (Present-frame id) p target).at w here);
    }

  module _ (p : Row) (with_script : has_script p ≡ true) where
    -- The answer has a return code and the state that is stored.
    pub record Coded (a : Answer) (w : World H) : Type 0 where
      pub code : ℤ
      pub returned : a.rc ≡ some code
      pub final : Present id (OfStatus p a.status) w

    file_result-Coded :
        (approver : String) (status : Status) (result : ExecResult)
        → Triple
            (Present id (OfStatus p status))
            (file_result b id approver status result)
            Coded
            Never
    unfolding file_result
    file_result-Coded approver status result = Triple-bind _ _ (get_row-Present id) λ r.
        Triple-fact _ λ fact.
          Triple-bind _ _
            (write_receipt-Present r status approver (some result)
              (has_script-frozen p r fact.0 with_script))
            λ u. Triple-bind _ _ (log-Present b id _) λ v.
              Triple-pure _ λ w here. record { code = result.rc; returned = refl; final = here }

    run_and_record-Coded :
        (approver : String) (r : Row) (target : Target)
        → Triple (Present id (IsOf p)) (run_and_record b id approver r target) Coded Never
    unfolding run_and_record frozen
    run_and_record-Coded approver r target = Triple-bind _ _ (now-Present b id) λ started.
        Triple-bind _ _ (write_row-Present id _ (λ x. refl) (λ x e. e)) λ u.
          Triple-bind _ _ (guarded_run-Present r target) λ result.
            Triple-bind _ _ (now-Present b id) λ finished.
              Triple-bind _ _ (write_row-Present id _ (λ x. refl) (λ x e. (e, refl)))
                λ v. file_result-Coded approver _ result

    module _ (target : Target) (inventory : List Target) (n : ℕ)
        (intact : (plan_hash b.platform p.plan == p.execution_hash) ≡ true)
        (in_time : b.clock n < p.expires_at)
        (there : inventory_get inventory p.target_id ≡ some target)
        (own : (target.client_id == b.client.client_id) ≡ true) where
      -- the hash test and the time test of `_execute`, on a row with the frozen columns
      still_intact : (r : Row) → IsOf p r → (plan_hash b.platform r.plan == r.execution_hash) ≡ true
      unfolding frozen
      still_intact r e =
          rw (ap (λ (x : Row). plan_hash b.platform x.plan == x.execution_hash) e) intact

      still_in_time : (r : Row) → IsOf p r → (t : ℕ) → t ≡ b.clock n → leb r.expires_at t ≡ false
      unfolding frozen
      still_in_time r e t s = rw (s, ap (λ (x : Row). x.expires_at) e) (ground arith)

      own_target-Still :
          (r : Row)
          → IsOf p r
          → Triple
              (Still id (IsOf p) inventory (n + 1))
              (own_target b r.target_id)
              (λ o w. Present id (IsOf p) w × (o ≡ some target))
              Never
      unfolding own_target frozen
      own_target-Still r e = record {
        at = λ w s. (s.here, rw (s.known, ap (λ (x : Row). x.target_id) e, there, own) refl);
      }

      resolved :
          (approver : String) (r : Row) (o : Option Target)
          → o ≡ some target
          → Triple (Present id (IsOf p)) (run_resolved b id approver r o) Coded Never
      resolved approver r none e = cc
      resolved approver r (some t) e = run_and_record-Coded approver r t

      pub execute-Coded :
          (approver : String)
          → Triple (Still id (IsOf p) inventory n) (execute b id approver) Coded Never
      unfolding execute
      execute-Coded approver = Triple-bind _ _ (get_row-Still id inventory n) λ r.
          Triple-fact _ λ e. rw (still_intact r e) (
            Triple-bind _ _ (now-Still b id inventory n) λ t. Triple-fact _ λ s.
              rw (still_in_time r e t s) (
                Triple-bind _ _ (own_target-Still r e)
                  λ o. Triple-fact _ λ f. resolved approver r o f))
