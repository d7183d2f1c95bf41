-- ===== src/Cli/Digits.antt =====
-- The decimal digits that the broker prints, read again (roles/msp_broker/files/broker/cli.py).
use Prim.Native.Char.{code}
use Prim.Native.Nat.{◌*◌, ◌/◌, ◌%◌}
use text.Mathlib.TextLemmas.{nil-append, cons-append}
use msp_fleet_public.Base.{
  ℕ, zero, suc, ◌+◌, ◌-◌, ◌<◌, String, true, false, ◌≡◌, refl, ap, List, [], ◌∷◌, arith, ◌++◌, ◌∙◌,
  length, leb, nat_eq, all, ◌<>◌, Bool-cases, inl, inr,
}
use msp_fleet_public.Cli.{is_digit, digits_from}
use msp_fleet_public.Kinds.{codes}
use msp_fleet_public.Platform.{digit_text, decimal_from, decimal}

pub codes-append : (s t : String) → codes (s <> t) ≡ codes s ++ codes t
codes-append String.[] t = ap codes (nil-append t)
codes-append (String.◌∷◌ c s) t =
    ap codes (cons-append c s t) ∙ ap (λ (cs : List ℕ). code c ∷ cs) (codes-append s t)

codes_of_digit : (d : ℕ) → d < 10 → codes (digit_text d) ≡ (b'0' + d) ∷ []
codes_of_digit zero h = refl
codes_of_digit (suc zero) h = refl
codes_of_digit (suc (suc zero)) h = refl
codes_of_digit (suc (suc (suc zero))) h = refl
codes_of_digit (suc (suc (suc (suc zero)))) h = refl
codes_of_digit (suc (suc (suc (suc (suc zero))))) h = refl
codes_of_digit (suc (suc (suc (suc (suc (suc zero)))))) h = refl
codes_of_digit (suc (suc (suc (suc (suc (suc (suc zero))))))) h = refl
codes_of_digit (suc (suc (suc (suc (suc (suc (suc (suc zero)))))))) h = refl
codes_of_digit (suc (suc (suc (suc (suc (suc (suc (suc (suc zero))))))))) h = refl
codes_of_digit (suc (suc (suc (suc (suc (suc (suc (suc (suc (suc n)))))))))) h = ground arith

codes-digit_text : (d : ℕ) (s : String) → d < 10 → codes (digit_text d <> s) ≡ (b'0' + d) ∷ codes s
codes-digit_text d s h =
    codes-append (digit_text d) s ∙ ap (λ (cs : List ℕ). cs ++ codes s) (codes_of_digit d h)

step_down : (f n : ℕ) → n < suc f → nat_eq (n / 10) 0 ≡ false → n / 10 < f
step_down f n h e = ground arith

recompose : (n : ℕ) → (n / 10) * 10 + (b'0' + n % 10 - b'0') ≡ n
recompose n = omega arith

small_digit : (n : ℕ) → nat_eq (n / 10) 0 ≡ true → 0 * 10 + (b'0' + n % 10 - b'0') ≡ n
small_digit n e = ground arith

remainder : (n : ℕ) → n % 10 < 10
remainder n = omega arith

-- Reading what is printed in front of `s`, with enough fuel, and then `s`.
digits_from-decimal_from :
    (fuel n : ℕ) (s : String)
    → n < fuel
    → digits_from 0 (codes (decimal_from fuel n s)) ≡ digits_from n (codes s)
unfolding decimal_from digits_from
digits_from-decimal_from zero n s h = omega arith
digits_from-decimal_from (suc f) n s h = elim (Bool-cases (nat_eq (n / 10) 0)) [
  | inl e ↦
      rw (e, codes-digit_text (n % 10) s (remainder n))
        (ap (λ k. digits_from k (codes s)) (small_digit n e))
  | inr e ↦
      rw
        (
          e,
          digits_from-decimal_from f (n / 10) (digit_text (n % 10) <> s) (step_down f n h e),
          codes-digit_text (n % 10) s (remainder n),
        )
        (ap (λ k. digits_from k (codes s)) (recompose n))
]

digit_code : (n : ℕ) → is_digit (b'0' + n % 10) ≡ true
digit_code n = ground arith

all-digit_text :
    (n : ℕ) (s : String)
    → all is_digit (codes s) ≡ true
    → all is_digit (codes (digit_text (n % 10) <> s)) ≡ true
all-digit_text n s h = rw (codes-digit_text (n % 10) s (remainder n), digit_code n) h

all-decimal_from :
    (fuel n : ℕ) (s : String)
    → all is_digit (codes s) ≡ true
    → all is_digit (codes (decimal_from fuel n s)) ≡ true
unfolding decimal_from
all-decimal_from zero n s h = h
all-decimal_from (suc f) n s h = elim (Bool-cases (nat_eq (n / 10) 0)) [
  | inl e ↦ rw e (all-digit_text n s h)
  | inr e ↦ rw e (all-decimal_from f (n / 10) _ (all-digit_text n s h))
]

-- What is printed is not empty.
digit_there : (n : ℕ) (s : String) → leb 1 (length (codes (digit_text (n % 10) <> s))) ≡ true
digit_there n s = rw (codes-digit_text (n % 10) s (remainder n)) (ground arith)

nonempty :
    (fuel n : ℕ) (s : String)
    → leb 1 (length (codes s)) ≡ true
    → leb 1 (length (codes (decimal_from fuel n s))) ≡ true
unfolding decimal_from
nonempty zero n s h = h
nonempty (suc f) n s h = elim (Bool-cases (nat_eq (n / 10) 0)) [
  | inl e ↦ rw e (digit_there n s)
  | inr e ↦ rw e (nonempty f (n / 10) _ (digit_there n s))
]

decimal_there : (n : ℕ) → leb 1 (length (codes (decimal n))) ≡ true
unfolding decimal decimal_from
decimal_there n = elim (Bool-cases (nat_eq (n / 10) 0)) [
  | inl e ↦ rw e (digit_there n "")
  | inr e ↦ rw e (nonempty n (n / 10) _ (digit_there n ""))
]

-- The decimal digits of a number are digits, at least one, and stand for the number.
pub decimal_lem :
    (n : ℕ)
    → (digits_from 0 (codes (decimal n)) ≡ n)
      × (all is_digit (codes (decimal n)) ≡ true)
      × (leb 1 (length (codes (decimal n))) ≡ true)
unfolding decimal digits_from
decimal_lem n = (
  digits_from-decimal_from (suc n) n "" (omega arith),
  all-decimal_from (suc n) n "" refl,
  decimal_there n,
)
