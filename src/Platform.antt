-- ===== src/Platform.antt =====
-- What the broker uses of Python's `re` and `hashlib`, and of the JSON encoder: parameters of the
-- model. Also the texts that adapters.py under roles/msp_broker/files/broker cleans with them.
use Prim.Native.Nat.{◌/◌, ◌%◌}
use msp_fleet_public.Base.{
  ℕ, zero, suc, ℤ, pos, negsuc, String, Bool, Option, List, leb, nat_eq, length, ◌==◌, ◌<>◌,
  if◌then◌else◌,
}
use msp_fleet_public.Kinds.{codes}
use msp_fleet_public.Plan.{Plan}
use msp_fleet_public.Plan.Json.{plan_json}
use msp_fleet_public.Value.{Value}

pub record Platform : Type 0 where
  -- `re.search(pattern, text)` finds a match
  pub re_search : String → String → Bool
  -- the first group of `re.search(pattern, text)`
  pub re_group : String → String → Option String
  -- `re.escape(text)`
  pub re_escape : String → String
  -- `re.sub(pattern, replacement, text)`
  pub re_sub : String → String → String → String
  -- the groups of `re.match(pattern, text)`
  pub re_groups : String → String → Option (List String)
  -- `re.split(pattern, text)`
  pub re_split : String → String → List String
  -- `text.isdigit()` and `text.lower()`
  pub isdigit : String → Bool
  pub lower : String → String
  -- of texts with characters outside ASCII: `text.lstrip("-").isdigit()` and `int(text)`
  pub is_signed_digits : String → Bool
  pub int_of : String → Option ℤ
  -- `hashlib.sha256(data).hexdigest()`
  pub sha256 : List ℕ → String
  -- `canonical(value).encode("utf-8")`: JSON with sorted keys
  pub canonical : Value → List ℕ
  -- `data.decode("utf-8", errors="replace")`
  pub decode : List ℕ → String

-- `text[:n]`
unfoldable pub take_text : ℕ → String → String
take_text zero s = String.[]
take_text (suc n) String.[] = String.[]
take_text (suc n) (String.◌∷◌ c s) = String.◌∷◌ c (take_text n s)

abbrev pub digit_text : ℕ → String
digit_text zero = "0"
digit_text (suc zero) = "1"
digit_text (suc (suc zero)) = "2"
digit_text (suc (suc (suc zero))) = "3"
digit_text (suc (suc (suc (suc zero)))) = "4"
digit_text (suc (suc (suc (suc (suc zero))))) = "5"
digit_text (suc (suc (suc (suc (suc (suc zero)))))) = "6"
digit_text (suc (suc (suc (suc (suc (suc (suc zero))))))) = "7"
digit_text (suc (suc (suc (suc (suc (suc (suc (suc zero)))))))) = "8"
digit_text _ = "9"

-- The decimal digits of `n` in front of `acc`; the first number is fuel, of which `suc n` is enough.
unfoldable pub decimal_from : ℕ → ℕ → String → String
decimal_from zero n acc = acc
decimal_from (suc fuel) n acc =
    let acc' = digit_text (n % 10) <> acc in
    let rest = decimal_from fuel (n / 10) acc' in if nat_eq (n / 10) 0 then acc' else rest

-- `"%d" % n`
unfoldable pub decimal : ℕ → String
unfolding decimal_from
decimal n = decimal_from (suc n) n ""

-- `"%d" % n` of an integer
abbrev pub int_text : ℤ → String
int_text (pos n) = decimal n
int_text (negsuc n) = "-" <> decimal (suc n)

module _ (p : Platform) where
  -- `plan_hash` of model.py
  unfoldable pub plan_hash : Plan → String
  unfolding plan_json
  plan_hash plan = p.sha256 (p.canonical (plan_json plan))

  unfoldable pub sanitize : String → String
  sanitize text =
      if text == ""
      then ""
      else p.re_sub "(?i)(--password[= ])(\\S+)" "\\1<REDACTED>" (
          p.re_sub
            "(?i)\\b(password|passwd|secret|token|api[_-]?key|authorization)\\b(\\s*[:=]\\s*)(\\S+)"
            "\\1\\2<REDACTED>" (p.re_sub "\\x1b\\[[0-9;?]*[A-Za-z]" "" text))

  unfoldable pub clamp : ℕ → String → String
  unfolding sanitize take_text decimal
  clamp limit text =
      let clean = sanitize text in
      if leb (length (codes clean)) limit
      then clean
      else take_text limit clean <> "\n[output truncated at " <> decimal limit <> " bytes]"
