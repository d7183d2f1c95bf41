-- ===== src/Kinds.antt =====
-- The value kinds of roles/msp_broker/files/broker/model.py (`_v_int` to `_v_pool`, `KINDS`).
pub mod Newline
use Prim.Native.Nat.{◌^◌}
use Prim.Native.Char.{code}
use Prim.Native.String
use msp_fleet_public.Base.{
  ℕ, String, Bool, true, false, ◌&&◌, ◌||◌, List, [], ◌∷◌, ltb, leb, nat_eq, all, any, length,
  between, if◌then◌else◌,
}
use msp_fleet_public.Value.{Value, num, str}

-- The code points of a text.
abbrev pub codes : String → List ℕ
codes String.[] = []
codes (String.◌∷◌ c s) = code c ∷ codes s

-- `[A-Za-z0-9]`
abbrev pub alnum : ℕ → Bool
alnum c = leb b'A' c && leb c b'Z' || leb b'a' c && leb c b'z' || leb b'0' c && leb c b'9'

-- `[A-Za-z0-9._:-]`
abbrev pub pool_char : ℕ → Bool
pool_char c = alnum c || nat_eq c b'.' || nat_eq c b'_' || nat_eq c b':' || nat_eq c b'-'

-- `[A-Za-z0-9@._:-]`
abbrev pub unit_char : ℕ → Bool
unit_char c = pool_char c || nat_eq c b'@'

-- The text without one newline at its end, if it has one.
unfoldable pub drop_newline : List ℕ → List ℕ
drop_newline [] = []
drop_newline (c ∷ []) = if nat_eq c b'\n' then [] else c ∷ []
drop_newline (c ∷ d ∷ s) = c ∷ drop_newline (d ∷ s)

abbrev pub in_class : (ℕ → Bool) → List ℕ → Bool
in_class cls s = leb 1 (length s) && leb (length s) 64 && all cls s

-- `re.match(r"^[...]{1,64}$", s)`: Python's `$` matches at the end and before a newline at the end.
unfoldable pub class_match : (ℕ → Bool) → List ℕ → Bool
unfolding drop_newline
class_match cls s = in_class cls s || in_class cls (drop_newline s)

pub data Kind : Type 0 where
  int vmid port seconds message unit pool : Kind

-- `_v_int`: a JSON boolean is no integer
abbrev pub v_int : ℕ → ℕ → Value → Bool
v_int lo hi (num n) = between 0 (10 ^ 9) n && between lo hi n
v_int lo hi _ = false

abbrev pub v_text : (List ℕ → Bool) → Value → Bool
v_text p (str s) = p (codes s)
v_text p _ = false

-- `0 < len(value) <= 128 and all(32 <= ord(c) < 127 for c in value)`
abbrev pub printable : List ℕ → Bool
printable s = ltb 0 (length s) && leb (length s) 128 && all (λ c. leb 32 c && ltb c 127) s

-- `KINDS[kind](value)`
unfoldable pub valid : Kind → Value → Bool
unfolding class_match
valid int = v_int 0 (10 ^ 9)
valid vmid = v_int 1 (10 ^ 9)
valid port = v_int 1 65535
valid seconds = v_int 1 3600
valid message = v_text printable
valid unit = v_text (class_match unit_char)
valid pool = v_text (class_match pool_char)

-- the name of a kind, as the registry writes it
unfoldable pub kind_name : Kind → String
kind_name int = "int"
kind_name vmid = "vmid"
kind_name port = "port"
kind_name seconds = "seconds"
kind_name message = "message"
kind_name unit = "unit"
kind_name pool = "pool"
