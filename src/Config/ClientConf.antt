-- ===== src/Config/ClientConf.antt =====
-- `load_client` of roles/msp_broker/files/broker/config.py.
pub mod Pairs
use package.text.Mathlib.Text.{starts_with}
use msp_fleet_public.Base.{
  ℕ, ◌+◌, String, Bool, true, false, not, ◌&&◌, ◌||◌, Option, none, some, List, [], ◌∷◌, ◌==◌,
  contains, if◌then◌else◌,
}
use msp_fleet_public.Config.{Content, read_file, key_match, bad_if}
use msp_fleet_public.Failure.{
  Result, ok, err, ◌>>=◌, ◌>>◌, config_error, expected_pair, unknown_key, bad_value, missing_key,
}
use msp_fleet_public.Kinds.{codes}
use msp_fleet_public.Plan.{Client}
use msp_fleet_public.Text.{strip, splitlines, partition_at}
use msp_fleet_public.Value.{lookup}

abbrev pub client_keys : List String
client_keys = "client_id" ∷ "client_name" ∷ "site_id" ∷ []

-- A line that the loop skips.
abbrev pub is_comment : String → Bool
is_comment line = line == "" || starts_with line "#"

-- The pair that one line holds, given the parts at its first "=".
unfoldable pub read_pair : ℕ → Option (String × String) → Result (String × String)
read_pair lineno none = err (config_error (expected_pair lineno))
read_pair lineno (some (left, right)) = do
  let key = strip left
  let value = strip right
  bad_if (not (contains key client_keys)) (unknown_key lineno key)
  bad_if (not (key_match (codes value))) (bad_value lineno key)
  ok (key, value)

-- The loop over the lines; `out` has the pairs so far, the latest first.
unfoldable pub read_lines :
    ℕ → List String → List (String × String) → Result (List (String × String))
unfolding read_pair
read_lines lineno [] out = ok out
read_lines lineno (raw ∷ lines) out =
    let line = strip raw in
    let rest = λ (pairs : List (String × String)). read_lines (lineno + 1) lines pairs in
    elim (is_comment line) [
      | true ↦ rest out
      | false ↦ read_pair lineno (partition_at b'=' line) >>= λ pair. rest (pair ∷ out)
    ]

abbrev pub required : String → List (String × String) → Result String
required key out = elim (lookup key out) [
  | none ↦ err (config_error (missing_key key))
  | some v ↦ ok v
]

-- The content of client.conf is given.
unfoldable pub load_client : Content → Result Client
unfolding read_file read_lines
load_client content = do
  text ← read_file content
  out ← read_lines 1 (splitlines text) []
  client_id ← required "client_id" out
  client_name ← required "client_name" out
  site_id ← required "site_id" out
  ok (record { client_id = client_id; client_name = client_name; site_id = site_id })
