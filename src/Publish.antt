-- ===== src/Publish.antt =====
-- The scrub list and the export gate (bin/publish-data.py), of what Collect has.
pub mod Collect
pub mod Escaped
pub mod Covered
pub mod Main
pub mod Alternatives
pub mod Hosts
use Prim.Native.Char.{Char, code}
use Prim.Native.String
use package.text.Mathlib.Text.{starts_with}
use msp_fleet_public.Base.{
  ℕ, ◌+◌, String, Bool, true, false, not, ◌&&◌, ◌||◌, Option, none, some, List, [], ◌∷◌, ◌++◌, ◌<>◌,
  ◌==◌, leb, nat_eq, any, length, map, contains, if◌then◌else◌,
}
use msp_fleet_public.Failure.{Result, ok, err, ◌>>=◌, crash}
use msp_fleet_public.Kinds.{codes}
use msp_fleet_public.Platform.{decimal}
use msp_fleet_public.Store.Listing.{order_by}
use msp_fleet_public.Text.{strip}
use msp_fleet_public.Value.{
  Value, null, str, obj, arr, Fields, end, field, Items, nil, cons, entries, items, lookup, get_or,
  truthy,
}
use msp_fleet_public.Publish.Collect.{Collected, add, union}

-- What is used of Python: `re.fullmatch(pattern, text)`, `str(value)` and the order of texts.
pub record Python : Type 0 where
  pub fullmatch : String → String → Bool
  pub str_of : Value → String
  pub before : String → String → Bool

-- `[.^$*+?()\[\]{}|\\]`
abbrev pub is_meta : ℕ → Bool
is_meta c =
    nat_eq c b'.'
    || nat_eq c b'^'
    || nat_eq c b'$'
    || nat_eq c b'*'
    || nat_eq c b'+'
    || nat_eq c b'?'
    || nat_eq c b'('
    || nat_eq c b')'
    || nat_eq c b'['
    || nat_eq c b']'
    || nat_eq c b'{'
    || nat_eq c b'}'
    || nat_eq c b'|'
    || nat_eq c b'\\'

abbrev pub backslash : Char
backslash = "\\"

-- `e`
unfoldable pub e : String → String
e String.[] = String.[]
e (String.◌∷◌ c name) =
    let rest = e name in
    if is_meta (code c) then String.◌∷◌ backslash (String.◌∷◌ c rest) else String.◌∷◌ c rest

abbrev pub longer : String → String → Bool
longer s t = leb (length (codes t)) (length (codes s))

-- `sorted(l, key=len, reverse=True)`
unfoldable pub by_length : List String → List String
unfolding order_by
by_length l = order_by longer l

-- One line for each address, numbered from 1.
abbrev pub address_line : Python → ℕ → Value → String
address_line py i a =
    if py.fullmatch "\\d{1,3}(\\.\\d{1,3}){3}" (py.str_of a)
    then "regex:\\b" <> e (py.str_of a) <> "\\b==>192.0.2." <> decimal i
    else py.str_of a <> "==>host" <> decimal i <> ".invalid"

abbrev pub address_at : String → List (String × Value) → Value
address_at h addrs = elim (lookup h addrs) [ some a ↦ a | none ↦ null ]

unfoldable pub address_lines : Python → List (String × Value) → ℕ → List String → List String
unfolding e truthy
address_lines py addrs i [] = []
address_lines py addrs i (h ∷ hosts) =
    let rest = address_lines py addrs (i + 1) hosts in
    if truthy (address_at h addrs) then address_line py i (address_at h addrs) ∷ rest else rest

abbrev private_lines : List String
private_lines =
    "regex:\\b10\\.[0-9]+\\.[0-9]+\\.[0-9]+\\b==>192.0.2.1"
    ∷ "regex:\\b172\\.(1[6-9]|2[0-9]|3[01])\\.[0-9]+\\.[0-9]+\\b==>192.0.2.1"
    ∷ "regex:\\b192\\.168\\.[0-9]+\\.[0-9]+\\b==>192.0.2.1" ∷ []

-- `scrub`, of what was collected
unfoldable pub scrub : Python → Collected → List String
unfolding by_length address_lines order_by
scrub py c =
    map (λ h. h <> "==>host.invalid") (by_length c.hosts)
    ++ map (λ n. n <> "==>SITE") (by_length c.names)
    ++ address_lines py c.addrs 1 (order_by py.before c.hosts)
    ++ private_lines

abbrev pub fixed_patterns : List String
fixed_patterns =
    "[0-9a-f]{8}-[0-9a-f]{4}-4[0-9a-f]{3}-[0-9a-f]{4}-[0-9a-f]{12}"
    ∷ "\\b10\\.[0-9]+\\.[0-9]+\\.[0-9]+\\b" ∷ "\\b172\\.(1[6-9]|2[0-9]|3[01])\\.[0-9]+\\.[0-9]+\\b"
    ∷ "\\b192\\.168\\.[0-9]+\\.[0-9]+\\b" ∷ "hc-ping\\.com/[0-9a-f]" ∷ []

-- the pattern of a whole word
abbrev pub word : String → String
word name = "\\b" <> e name <> "\\b"

unfoldable pub address_patterns : Python → List (String × Value) → List String
unfolding e truthy
address_patterns py [] = []
address_patterns py ((h, a) ∷ addrs) =
    let rest = address_patterns py addrs in if truthy a then word (py.str_of a) ∷ rest else rest

-- the alternatives of `gate`
unfoldable pub patterns : Python → Collected → List String
unfolding e by_length union address_patterns
patterns py c =
    fixed_patterns ++ map word (by_length (union c.hosts c.names)) ++ address_patterns py c.addrs

-- `"|".join(pats)`
unfoldable pub join : List String → String
join [] = ""
join (p ∷ []) = p
join (p ∷ q ∷ ps) = p <> "|" <> join (q ∷ ps)

unfoldable pub gate : Python → Collected → String
unfolding patterns join
gate py c = join (patterns py c)
