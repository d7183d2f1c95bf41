-- ===== src/Exec/Keeps.antt =====
-- Invariants of actions, one rule for each way to build an action.
use msp_fleet_public.Base.{Bool, true, false, String, if◌then◌else◌}
use msp_fleet_public.Broker.Actions.{
  handle_adapter_error, except_adapter_error, handle_all, except_all, finally,
}
use msp_fleet_public.Exec.{Exec, pure, raise, lift, gets, refuse_if, ◌>>=◌}
use msp_fleet_public.Exec.Rules.{Post, Keeps, Triple-bind}
use msp_fleet_public.Failure.{
  Fault, Refusal, Result, ok, err, adapter_error, refused, config_error, store_error, crash,
}

module _ {S A : Type 0} {P : S → Type 0} where
  pub Keeps-pure : (a : A) → Keeps P (pure a)
  Keeps-pure a = record { at = λ s h. h }

  pub Keeps-raise : (e : Fault) → Keeps {A = A} P (raise e)
  Keeps-raise e = record { at = λ s h. h }

  pub Keeps-lift : (r : Result A) → Keeps P (lift r)
  Keeps-lift (ok a) = record { at = λ s h. h }
  Keeps-lift (err e) = record { at = λ s h. h }

  pub Keeps-gets : (f : S → A) → Keeps P (gets f)
  Keeps-gets f = record { at = λ s h. h }

  pub Keeps-if : (b : Bool) (m n : Exec S A) → Keeps P m → Keeps P n → Keeps P (if b then m else n)
  Keeps-if true m n km kn = km
  Keeps-if false m n km kn = kn

module _ {S : Type 0} {P : S → Type 0} where
  pub Keeps-refuse_if : (b : Bool) (why : Refusal) → Keeps P (refuse_if b why)
  Keeps-refuse_if true why = record { at = λ s h. h }
  Keeps-refuse_if false why = record { at = λ s h. h }

module _ {S A B : Type 0} {P : S → Type 0} where
  -- an action and what follows it
  pub Keeps-bind :
      (first : Exec S A) (later : A → Exec S B)
      → Keeps P first
      → ((value : A) → Keeps P (later value))
      → Keeps P (first >>= later)
  Keeps-bind first later kept_first kept_later = Triple-bind first later kept_first kept_later

module _ {S A : Type 0} where
  caught :
      (P : S → Type 0) (r : Result A × S) (handler : Fault → A)
      → Post (λ _. P) P r
      → Post (λ _. P) P (handle_all handler r)
  caught P (ok a, s) handler p = p
  caught P (err e, s) handler p = p

module _ {S A : Type 0} {P : S → Type 0} where
  handled :
      (r : Result A × S) (handler : String → Exec S A)
      → Post (λ _. P) P r
      → ((e : String) → Keeps P (handler e))
      → Post (λ _. P) P (handle_adapter_error handler r)
  handled (ok a, s) handler p k = p
  handled (err (adapter_error e), s) handler p k = (k e).at s p
  handled (err (refused e), s) handler p k = p
  handled (err (config_error e), s) handler p k = p
  handled (err store_error, s) handler p k = p
  handled (err crash, s) handler p k = p

  pub Keeps-except_adapter_error :
      (m : Exec S A) (handler : String → Exec S A)
      → Keeps P m
      → ((e : String) → Keeps P (handler e))
      → Keeps P (except_adapter_error m handler)
  unfolding except_adapter_error
  Keeps-except_adapter_error m handler km kh = record {
    at = λ s p. handled (m s) handler (km.at s p) kh;
  }

  -- With a handler for every exception nothing is raised.
  pub Keeps-except_all :
      (m : Exec S A) (handler : Fault → A) → Keeps P m → Keeps P (except_all m handler)
  unfolding except_all
  Keeps-except_all m handler km = record { at = λ s p. caught P (m s) handler (km.at s p) }

module _ {S A : Type 0} where
  cleaned :
      (P : S → Type 0) (r : Result A × S) (cleanup : S → S)
      → ((s : S) → P s → P (cleanup s))
      → Post (λ _. P) P r
      → Post (λ _. P) P (r.0, cleanup r.1)
  cleaned P (ok a, s) cleanup k p = k s p
  cleaned P (err e, s) cleanup k p = k s p

  pub Keeps-finally :
      {P : S → Type 0} (m : Exec S A) (cleanup : S → S)
      → Keeps P m
      → ((s : S) → P s → P (cleanup s))
      → Keeps P (finally m cleanup)
  unfolding finally
  Keeps-finally m cleanup km k = record { at = λ s p. cleaned _ (m s) cleanup k (km.at s p) }

pub ruleset keeps_rules = (
  Keeps-pure, Keeps-raise, Keeps-lift, Keeps-gets, Keeps-if, Keeps-refuse_if, Keeps-bind,
  Keeps-except_adapter_error, Keeps-except_all,
)
