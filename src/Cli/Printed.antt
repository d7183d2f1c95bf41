-- ===== src/Cli/Printed.antt =====
-- The parameters that a command line spells, read again (roles/msp_broker/files/broker/cli.py).
use text.Mathlib.TextLemmas.{cons-append, nil-append}
use msp_fleet_public.Base.{
  ℕ, suc, ℤ, pos, negsuc, String, Bool, true, false, not, ◌&&◌, ◌≡◌, refl, ap, sym, ◌∙◌, some, List,
  [], ◌∷◌, ◌++◌, arith, leb, ltb, nat_eq, all, any, length, ◌<>◌, ◌==◌, eq_iff, map, if◌then◌else◌,
}
use msp_fleet_public.Cli.{
  is_digit, digits_from, strip_minus, are_digits, read_int, read_value, parse_from, parse_params,
}
use msp_fleet_public.Cli.Digits.{decimal_lem, codes-append}
use msp_fleet_public.Failure.{ok}
use msp_fleet_public.Kinds.{codes}
use msp_fleet_public.Params.{Params}
use msp_fleet_public.Platform.{Platform, decimal, int_text}
use msp_fleet_public.Text.{strip, lstrip, rstrip, is_space_code, partition_at}
use msp_fleet_public.Value.{Value, num, str, assign}

-- digits after an optional minus sign
abbrev is_number : List ℕ → Bool
is_number [] = false
is_number (c ∷ cs) = if nat_eq c b'-' then are_digits cs else are_digits (c ∷ cs)

-- At most 4300 digits, the number that Python converts.
abbrev pub is_short : ℤ → Bool
is_short (pos n) = leb (length (codes (decimal n))) 4300
is_short (negsuc n) = leb (length (codes (decimal (suc n)))) 4300

read_int-pos :
    (cs : List ℕ) (n : ℕ)
    → (digits_from 0 cs ≡ n) × (all is_digit cs ≡ true) × (leb 1 (length cs) ≡ true)
    → leb (length cs) 4300 ≡ true
    → read_int cs ≡ ok (num (pos n))
read_int-pos [] n h k = ground arith
read_int-pos (c ∷ cs) n h k = ground arith

read_int-minus :
    (cs : List ℕ) (n : ℕ)
    → (digits_from 0 cs ≡ suc n) × (all is_digit cs ≡ true) × (leb 1 (length cs) ≡ true)
    → leb (length cs) 4300 ≡ true
    → read_int (b'-' ∷ cs) ≡ ok (num (negsuc n))
read_int-minus cs n h k = ground arith

strip_minus_digits : (cs : List ℕ) → all is_digit cs ≡ true → strip_minus cs ≡ cs
unfolding strip_minus
strip_minus_digits [] h = refl
strip_minus_digits (c ∷ cs) h = ground arith

ascii_digits : (cs : List ℕ) → all is_digit cs ≡ true → all (λ c. ltb c 128) cs ≡ true
ascii_digits [] h = refl
ascii_digits (c ∷ cs) h = ground (arith, ascii_digits cs)

-- No character of the text is white space.
abbrev is_solid : List ℕ → Bool
is_solid cs = all (λ c. not (is_space_code c)) cs

rstrip_solid : (s : String) → is_solid (codes s) ≡ true → rstrip s ≡ s
unfolding rstrip
rstrip_solid String.[] h = refl
rstrip_solid (String.◌∷◌ c String.[]) h = ground arith
rstrip_solid (String.◌∷◌ c (String.◌∷◌ d s)) h =
    rw (rstrip_solid (String.◌∷◌ d s) (ground arith)) refl

lstrip_solid : (s : String) → is_solid (codes s) ≡ true → lstrip s ≡ s
unfolding lstrip
lstrip_solid String.[] h = refl
lstrip_solid (String.◌∷◌ c s) h = ground arith

strip_solid : (s : String) → is_solid (codes s) ≡ true → strip s ≡ s
unfolding strip
strip_solid s h = rw (rstrip_solid s h) (lstrip_solid s h)

solid_digits : (cs : List ℕ) → all is_digit cs ≡ true → is_solid cs ≡ true
solid_digits [] h = refl
solid_digits (c ∷ cs) h = ground (arith, solid_digits cs)

codes_of_minus : (n : ℕ) → codes (int_text (negsuc n)) ≡ b'-' ∷ codes (decimal (suc n))
codes_of_minus n = codes-append "-" (decimal (suc n))

strip-int_text : (n : ℤ) → strip (int_text n) ≡ int_text n
strip-int_text (pos n) = strip_solid _ (solid_digits (codes (decimal n)) (decimal_lem n).1)
strip-int_text (negsuc n) =
    strip_solid _
      (rw (codes_of_minus n) (solid_digits (codes (decimal (suc n))) (decimal_lem (suc n)).1))

module _ (p : Platform) where
  -- the value of digits after an optional minus sign
  read_value-ascii :
      (s : String)
      → all (λ c. ltb c 128) (codes s) ≡ true
      → are_digits (strip_minus (codes s)) ≡ true
      → read_value p s ≡ read_int (codes s)
  unfolding read_value
  read_value-ascii s h k = rw (h, k) refl

  read_value-int_text : (n : ℤ) → is_short n ≡ true → read_value p (int_text n) ≡ ok (num n)
  unfolding strip_minus
  read_value-int_text (pos n) h =
      let d = decimal_lem n in
      read_value-ascii (decimal n) (ascii_digits (codes (decimal n)) d.1)
        (rw (strip_minus_digits (codes (decimal n)) d.1) (ground arith))
      ∙ read_int-pos (codes (decimal n)) n d h
  read_value-int_text (negsuc n) h =
      let d = decimal_lem (suc n) in
      read_value-ascii (int_text (negsuc n))
        (rw (codes_of_minus n) (ascii_digits (codes (decimal (suc n))) d.1))
        (rw (codes_of_minus n, strip_minus_digits (codes (decimal (suc n))) d.1) (ground arith))
      ∙ ap read_int (codes_of_minus n)
      ∙ read_int-minus (codes (decimal (suc n))) n d h

equals_append : (s : String) → "=" <> s ≡ String.◌∷◌ "=" s
equals_append s = cons-append "=" "" s ∙ ap (λ (t : String). String.◌∷◌ "=" t) (nil-append s)

-- The parts of a text at its first "=".
partition_at-append :
    (key value : String)
    → all (λ c. not (nat_eq c b'=')) (codes key) ≡ true
    → partition_at b'=' (key <> ("=" <> value)) ≡ some (key, value)
unfolding partition_at
partition_at-append String.[] value h = rw (nil-append ("=" <> value), equals_append value) refl
partition_at-append (String.◌∷◌ c s) value h =
    rw (cons-append c s ("=" <> value), partition_at-append s value (ground arith)) (ground arith)

-- A value that the command line can hold, and its text.
abbrev spell : Value → String
spell (num n) = int_text n
spell (str s) = s
spell _ = ""

-- A text that is its own stripped form and does not look like an integer, in ASCII.
abbrev is_plain : String → Bool
is_plain s =
    strip s == s && all (λ c. ltb c 128) (codes s) && not (are_digits (strip_minus (codes s)))

abbrev is_spellable : Value → Bool
is_spellable (num n) = is_short n
is_spellable (str s) = is_plain s
is_spellable _ = false

-- A key without white space and "=".
abbrev is_key : String → Bool
is_key key = is_solid (codes key) && all (λ c. not (nat_eq c b'=')) (codes key)

abbrev has_key : String → Params → Bool
has_key key out = any (λ e. e.0 == key) out

-- No key stands twice in the parameters, nor in those before them.
abbrev are_new : Params → Params → Bool
are_new out [] = true
are_new out ((key, v) ∷ ps) = not (has_key key out) && are_new (out ++ (key, v) ∷ []) ps

assign_new :
    (key : String) (v : Value) (out : Params)
    → has_key key out ≡ false
    → assign key v out ≡ out ++ (key, v) ∷ []
unfolding assign
assign_new key v [] h = refl
assign_new key v ((k, u) ∷ out) h = ground (arith, assign_new key v out)

append_assoc :
    (out : Params) (e : String × Value) (ps : Params) → (out ++ e ∷ []) ++ ps ≡ out ++ e ∷ ps
append_assoc [] e ps = refl
append_assoc (x ∷ out) e ps = ap (λ (l : Params). x ∷ l) (append_assoc out e ps)

append_nil : (out : Params) → out ++ [] ≡ out
append_nil [] = refl
append_nil (x ∷ out) = ap (λ (l : Params). x ∷ l) (append_nil out)

module _ (p : Platform) where
  read_value-plain :
      (s : String)
      → all (λ c. ltb c 128) (codes s) ≡ true
      → are_digits (strip_minus (codes s)) ≡ false
      → read_value p s ≡ ok (str s)
  unfolding read_value
  read_value-plain s h k = rw (h, k) refl

  read_value-spell : (v : Value) → is_spellable v ≡ true → read_value p (strip (spell v)) ≡ ok v
  read_value-spell (num n) h = rw (strip-int_text n) (read_value-int_text p n h)
  read_value-spell (str s) h =
      rw ((eq_iff (strip s) s).0 (ground arith)) (read_value-plain s (ground arith) (ground arith))
  read_value-spell _ h = cc

  parse_from-spell :
      (out ps : Params)
      → are_new out ps ≡ true
      → all (λ e. is_key e.0 && is_spellable e.1) ps ≡ true
      → parse_from p out (map (λ e. e.0 <> ("=" <> spell e.1)) ps) ≡ ok (out ++ ps)
  unfolding parse_from
  parse_from-spell out [] h k = ap ok (sym (append_nil out))
  parse_from-spell out ((key, v) ∷ ps) h k =
      rw
        (
          partition_at-append key (spell v) (ground arith),
          strip_solid key (ground arith),
          read_value-spell v (ground arith),
          assign_new key v out (ground arith),
        )
        (parse_from-spell (out ++ (key, v) ∷ []) ps (ground arith) (ground arith)
          ∙ ap ok (append_assoc out (key, v) ps))

  -- Parameters whose keys are different and have neither white space nor "=", and whose values are
  -- integers of at most 4300 digits, or stripped ASCII texts that are not digits after minus signs,
  -- are read back from the words "key=value" that spell them, in their order.
  pub parse_params-spell :
      (ps : Params)
      → are_new [] ps ≡ true
      → all (λ e. is_key e.0 && is_spellable e.1) ps ≡ true
      → parse_params p (map (λ e. e.0 <> ("=" <> spell e.1)) ps) ≡ ok ps
  unfolding parse_params
  parse_params-spell ps h k = parse_from-spell [] ps h k
