-- ===== src/Config.antt =====
-- The configuration files of the broker (roles/msp_broker/files/broker/config.py): what the two
-- loaders share.
pub mod ClientConf
pub mod PolicyFile
pub mod PolicyView
pub mod Paths
use msp_fleet_public.Base.{
  ℕ, ℤ, String, Bool, true, false, ◌&&◌, ◌||◌, Option, none, some, List, [], ◌∷◌, leb, nat_eq,
  length, all, if◌then◌else◌,
}
use msp_fleet_public.Failure.{ConfigFault, Result, ok, err, config_error, cannot_read, crash}
use msp_fleet_public.Kinds.{alnum, drop_newline}
use msp_fleet_public.Value.{Value}

-- What is used of Python's JSON decoder and of its numbers with a fraction, which are kept as texts.
pub record Json : Type 0 where
  -- `json.loads(text)`, or its ValueError
  pub loads : String → Option Value
  -- `str(x)` of such a number
  pub str_real : String → String
  -- `x == 1` of such a number
  pub is_one : String → Bool
  -- `str(v)` of any value
  pub str_of : Value → String
  -- what sqlite3 stores of a value in a TEXT column, or its exception
  pub column : Value → Result String

-- What opening and reading a file gives: an OSError, bytes that are not UTF-8, or the text.
pub data Content : Type 0 where
  unreadable undecodable : Content
  readable : String → Content

-- `_read`: a UnicodeDecodeError is no OSError, and goes on
unfoldable pub read_file : Content → Result String
read_file unreadable = err (config_error cannot_read)
read_file undecodable = err crash
read_file (readable s) = ok s

-- `[A-Za-z0-9 ._-]`
abbrev pub key_char : ℕ → Bool
key_char c = alnum c || nat_eq c b' ' || nat_eq c b'.' || nat_eq c b'_' || nat_eq c b'-'

abbrev pub in_key : List ℕ → Bool
in_key [] = false
in_key (c ∷ s) = alnum c && leb (length s) 63 && all key_char s

-- `_KEY.match(text)`; `$` also matches before a newline at the end
unfoldable pub key_match : List ℕ → Bool
unfolding drop_newline
key_match s = in_key s || in_key (drop_newline s)

-- `if test: raise ConfigError(...)`
abbrev pub bad_if : Bool → ConfigFault → Result (Unit {0})
bad_if true why = err (config_error why)
bad_if false why = ok tt
