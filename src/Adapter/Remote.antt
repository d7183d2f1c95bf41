-- ===== src/Adapter/Remote.antt =====
-- The commands that the Proxmox adapter runs on its host, over a runner that is the ssh command of
-- the site (roles/msp_broker/files/broker/proxmox.py).
pub mod Ssh
use msp_fleet_public.Base.{
  ℕ, ℤ, pos, negsuc, String, Bool, false, Option, none, some, List, [], ◌∷◌, ◌==◌, ◌<>◌, nat_eq,
  any, if◌then◌else◌,
}
use msp_fleet_public.Exec.{Exec, lift, ◌>>=◌}
use msp_fleet_public.Failure.{Result, ok, err, adapter_error}
use msp_fleet_public.Platform.{Platform, sanitize, int_text}
use msp_fleet_public.Text.{strip, splitlines}

-- argv, standard input, timeout; the exit code and both outputs, or an AdapterError
abbrev pub Runner : Type 0 → Type 0
Runner H = List String → Option (List ℕ) → ℕ → Exec H (ℤ × String × String)

abbrev pub allowed : List ℕ → ℤ → Bool
allowed codes (pos n) = any (λ c. nat_eq c n) codes
allowed codes (negsuc n) = false

abbrev pub first_of_lines : List String → String
first_of_lines [] = "unknown"
first_of_lines (l ∷ ls) = l

-- `(out.splitlines() or ["unknown"])[0].strip()`
unfoldable pub first_line : String → String
first_line out = strip (first_of_lines (splitlines out))

module _ (p : Platform) where
  -- `re.search(r"^status:\s*(\S+)", text, re.M)`
  unfoldable pub parse_status : String → String
  parse_status out = elim (p.re_group "(?m)^status:\\s*(\\S+)" out) [
    | some status ↦ status
    | none ↦ "unknown"
  ]

  abbrev pub message : ℤ → String → String → String
  message rc out errors =
      let said = sanitize p (strip (if errors == "" then out else errors)) in
      if said == "" then "command failed with rc=" <> int_text rc else said

  abbrev pub exit_check : List ℕ → ℤ → String → String → Result (ℤ × String × String)
  exit_check codes rc out errors =
      if allowed codes rc then ok (rc, out, errors) else err (adapter_error (message rc out errors))

module _ {H : Type 0} (p : Platform) (runner : Runner H) where
  -- `_run`
  unfoldable pub run : List ℕ → List String → Option (List ℕ) → ℕ → Exec H (ℤ × String × String)
  run codes argv stdin timeout = do
    (rc, out, errors) ← runner argv stdin timeout
    lift (exit_check p codes rc out errors)

  abbrev pub ask : List String → Exec H (ℤ × String × String)
  ask argv = run (0 ∷ []) argv none 30
