-- ===== src/Exec.antt =====
-- Methods of the broker service: they read and write the broker's world and may raise. What was
-- written before an exception stays written, so the state comes back beside the error too.
pub mod Rules
pub mod Keeps
use msp_fleet_public.Base.{Bool, true, false}
use msp_fleet_public.Failure.{Fault, refused, Refusal, Result, ok, err}

abbrev pub Exec : Type 0 → Type 0 → Type 0
Exec S A = S → Result A × S

module _ {S A : Type 0} where
  abbrev pub pure : A → Exec S A
  pure a s = (ok a, s)

  abbrev pub raise : Fault → Exec S A
  raise e s = (err e, s)

  -- a computation that may raise and touches no state
  abbrev pub lift : Result A → Exec S A
  lift r s = (r, s)

  abbrev pub gets : (S → A) → Exec S A
  gets f s = (ok (f s), s)

module _ {S : Type 0} where
  abbrev pub modify : (S → S) → Exec S (Unit {0})
  modify f s = (ok tt, f s)

  -- `if test: raise Refused(...)`
  abbrev pub refuse_if : Bool → Refusal → Exec S (Unit {0})
  refuse_if true why s = (err (refused why), s)
  refuse_if false why s = (ok tt, s)

module _ {S A B : Type 0} where
  abbrev pub continue : Result A → (A → Exec S B) → Exec S B
  continue (ok a) f s = f a s
  continue (err e) f s = (err e, s)

  infixl 5 ◌>>=◌ ◌>>◌
  unfoldable pub ◌>>=◌ : Exec S A → (A → Exec S B) → Exec S B
  ◌>>=◌ m f s = let (r, s') = m s in continue r f s'

  abbrev pub ◌>>◌ : Exec S A → Exec S B → Exec S B
  m >> n = m >>= λ _. n
