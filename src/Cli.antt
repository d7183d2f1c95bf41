-- ===== src/Cli.antt =====
-- `parse_params` of roles/msp_broker/files/broker/cli.py: the parameters of a command line. Texts of
-- ASCII characters are read here; those with other characters are left to the platform.
pub mod Digits
pub mod Printed
pub mod Request
use Prim.Native.Char.{code}
use Prim.Native.Nat.{◌*◌}
use Prim.Native.String
use msp_fleet_public.Base.{
  ℕ, suc, zero, ◌+◌, ◌-◌, ℤ, pos, negsuc, String, Bool, true, false, ◌&&◌, Option, none, some, List,
  [], ◌∷◌, ◌==◌, leb, ltb, nat_eq, all, length, if◌then◌else◌,
}
use msp_fleet_public.Failure.{Result, ok, err, ◌>>=◌, crash, refused, bad_pair}
use msp_fleet_public.Kinds.{codes}
use msp_fleet_public.Params.{Params}
use msp_fleet_public.Platform.{Platform}
use msp_fleet_public.Text.{strip, partition_at}
use msp_fleet_public.Value.{Value, num, str, assign}

abbrev pub is_digit : ℕ → Bool
is_digit c = leb b'0' c && leb c b'9'

-- the number that digits stand for, after digits that stand for `n`
unfoldable pub digits_from : ℕ → List ℕ → ℕ
digits_from n [] = n
digits_from n (c ∷ cs) = digits_from (n * 10 + (c - b'0')) cs

-- `text.lstrip("-")`
unfoldable pub strip_minus : List ℕ → List ℕ
strip_minus [] = []
strip_minus (c ∷ cs) = if nat_eq c b'-' then strip_minus cs else c ∷ cs

-- `int(value)` of digits after minus signs: with two signs it is a ValueError, and so it is with more
-- than 4300 digits
abbrev pub minus : ℕ → ℤ
minus zero = pos zero
minus (suc n) = negsuc n

abbrev pub int_digits : (ℕ → ℤ) → List ℕ → Result Value
int_digits sign cs =
    if all is_digit cs && leb (length cs) 4300
    then ok (num (sign (digits_from 0 cs)))
    else err crash

abbrev pub read_int : List ℕ → Result Value
read_int [] = err crash
read_int (c ∷ cs) = if nat_eq c b'-' then int_digits minus cs else int_digits pos (c ∷ cs)

-- `text.isdigit()` of ASCII characters
abbrev pub are_digits : List ℕ → Bool
are_digits cs = leb 1 (length cs) && all is_digit cs

module _ (p : Platform) where
  abbrev int_elsewhere : Option ℤ → Result Value
  int_elsewhere none = err crash
  int_elsewhere (some n) = ok (num n)

  -- `value.lstrip("-").isdigit()`, then `int(value)`
  unfoldable pub read_value : String → Result Value
  unfolding strip_minus digits_from
  read_value value =
      let ascii = all (λ c. ltb c 128) (codes value) in
      if ascii
      then (if are_digits (strip_minus (codes value))
          then read_int (codes value)
          else ok (str value))
      else if p.is_signed_digits value
      then int_elsewhere (p.int_of value)
      else ok (str value)

  unfoldable pub read_param : Option (String × String) → Params → Result Params
  unfolding assign read_value
  read_param none out = err (refused bad_pair)
  read_param (some (key, value)) out =
      read_value (strip value) >>= λ v. ok (assign (strip key) v out)

  -- The loop over the pairs.
  unfoldable pub parse_from : Params → List String → Result Params
  unfolding read_param
  parse_from out [] = ok out
  parse_from out (pair ∷ pairs) =
      read_param (partition_at b'=' pair) out >>= λ out'. parse_from out' pairs

  unfoldable pub parse_params : List String → Result Params
  unfolding parse_from
  parse_params pairs = parse_from [] pairs
