-- ===== src/Exec/Rules.antt =====
-- Hoare triples for actions that may raise: `Q` holds of a result and its state, `E` of the state
-- that an exception leaves.
use msp_fleet_public.Base.{Bool, true, false, ◌≡◌, refl, if◌then◌else◌}
use msp_fleet_public.Failure.{Fault, Refusal, Result, ok, err}
use msp_fleet_public.Exec.{Exec, pure, raise, lift, refuse_if, ◌>>=◌, ◌>>◌}

module _ {S A : Type 0} where
  abbrev pub Post : (A → S → Type 0) → (S → Type 0) → Result A × S → Type 0
  Post Q E (ok a, s) = Q a s
  Post Q E (err e, s) = E s

  pub record Triple (P : S → Type 0) (m : Exec S A) (Q : A → S → Type 0) (E : S → Type 0)
      : Type 0 where
    pub at : (s : S) → P s → Post Q E (m s)

  -- `m` keeps `P`, whether it returns or raises.
  abbrev pub Keeps : (S → Type 0) → Exec S A → Type 0
  Keeps P m = Triple P m (λ _. P) P

module _ {S A : Type 0} {P : S → Type 0} {Q : A → S → Type 0} {E : S → Type 0} where
  pub Triple-pure : (a : A) → ((s : S) → P s → Q a s) → Triple P (pure a) Q E
  Triple-pure a h = record { at = h }

  pub Triple-raise : (e : Fault) → ((s : S) → P s → E s) → Triple P (raise e) Q E
  Triple-raise e h = record { at = h }

  -- the exception path is free where the precondition already gives what it needs
  pub Triple-weaken :
      {P' : S → Type 0} (m : Exec S A) → ((s : S) → P' s → P s) → Triple P m Q E → Triple P' m Q E
  Triple-weaken m h t = record { at = λ s p. t.at s (h s p) }

module _ {S A B : Type 0} {R : B → S → Type 0} {E : S → Type 0} where
  continue_Post :
      {Q : A → S → Type 0} (r : Result A × S) (f : A → Exec S B)
      → Post Q E r
      → ((a : A) → Triple (Q a) (f a) R E)
      → Post R E ((lift r.0 >>= f) r.1)
  unfolding ◌>>=◌
  continue_Post (ok a, s) f h k = (k a).at s h
  continue_Post (err e, s) f h k = h

module _ {S A B : Type 0} {P : S → Type 0} {R : B → S → Type 0} {E : S → Type 0} where
  pub Triple-bind :
      {Q : A → S → Type 0} (m : Exec S A) (f : A → Exec S B)
      → Triple P m Q E
      → ((a : A) → Triple (Q a) (f a) R E)
      → Triple P (m >>= f) R E
  unfolding ◌>>=◌
  Triple-bind m f h k = record { at = λ s p. continue_Post (m s) f (h.at s p) k }

  -- what follows may use that the value was returned
  pub Triple-lift :
      (r : Result A) (f : A → Exec S B)
      → ((s : S) → P s → E s)
      → ((a : A) → r ≡ ok a → Triple P (f a) R E)
      → Triple P (lift r >>= f) R E
  unfolding ◌>>=◌
  Triple-lift (ok a) f e k = record { at = λ s p. (k a refl).at s p }
  Triple-lift (err x) f e k = record { at = e }

module _ {S A F : Type 0} {P : S → Type 0} {Q : A → S → Type 0} {E : S → Type 0} where
  -- what follows may use a fact that is no statement about the state
  pub Triple-fact : (m : Exec S A) → (F → Triple P m Q E) → Triple (λ s. P s × F) m Q E
  Triple-fact m k = record { at = λ s pf. (k pf.1).at s pf.0 }

module _ {S B : Type 0} {P : S → Type 0} {R : B → S → Type 0} {E : S → Type 0} where
  -- what follows may use that the test failed
  pub Triple-refuse_if :
      (b : Bool) (why : Refusal) (k : Exec S B)
      → ((s : S) → P s → E s)
      → (b ≡ false → Triple P k R E)
      → Triple P (refuse_if b why >> k) R E
  unfolding ◌>>=◌
  Triple-refuse_if true why k e t = record { at = e }
  Triple-refuse_if false why k e t = record { at = λ s p. (t refl).at s p }

module _ {S A : Type 0} {P E : S → Type 0} where
  -- what is kept gives what the exception path needs
  pub Keeps-to : (m : Exec S A) → Keeps P m → ((s : S) → P s → E s) → Triple P m (λ _. P) E
  Keeps-to m k h = record { at = λ s p. kept (m s) h (k.at s p) }
    where
      kept : (r : Result A × S) → ((s : S) → P s → E s) → Post (λ _. P) P r → Post (λ _. P) E r
      kept (ok a, s) h p = p
      kept (err e, s) h p = h s p

module _ {S A : Type 0} {P : S → Type 0} {Q : A → S → Type 0} {E : S → Type 0} where
  pub Triple-if :
      (b : Bool) (m n : Exec S A)
      → Triple P m Q E
      → Triple P n Q E
      → Triple P (if b then m else n) Q E
  Triple-if true m n h k = h
  Triple-if false m n h k = k

module _ {S A : Type 0} {P : S → Type 0} {Q R : A → S → Type 0} {E : S → Type 0} where
  -- a postcondition may be replaced by one that follows from it
  pub Triple-strengthen :
      (m : Exec S A) → ((a : A) (s : S) → Q a s → R a s) → Triple P m Q E → Triple P m R E
  Triple-strengthen m h t = record { at = λ s p. weaker (m s) (t.at s p) }
    where
      weaker : (r : Result A × S) → Post Q E r → Post R E r
      weaker (ok a, s) q = h a s q
      weaker (err e, s) q = q
