-- ===== src/ScriptCheck/Found.antt =====
-- When a script has a FORBIDDEN finding (roles/msp_broker/files/broker/scriptcheck.py).
use msp_fleet_public.Base.{
  ℕ, ◌+◌, String, Bool, false, ◌||◌, ◌≡◌, refl, List, [], ◌∷◌, ◌++◌, any, arith,
}
use msp_fleet_public.Plan.{warning, forbidden}
use msp_fleet_public.Platform.{Platform}
use msp_fleet_public.ScriptCheck.{
  Rule, warnings, forbidden_rules, policy_rules, scan_line, scan_lines, scan, has_forbidden,
}
use msp_fleet_public.Text.{splitlines}

any-append {ℓ} :
    {A : Type ℓ} (p : A → Bool) (xs ys : List A) → any p (xs ++ ys) ≡ any p xs || any p ys
any-append p [] ys = refl
any-append p (x ∷ xs) ys = ground (arith, any-append p xs ys)

module _ (p : Platform) where
  -- Some rule's pattern is found in the line.
  abbrev pub hits : List Rule → String → Bool
  hits rules line = any (λ r. p.re_search r.0 line) rules

  has_forbidden-warnings :
      (n : ℕ) (line : String) (rules : List Rule)
      → has_forbidden (scan_line p warning n line rules) ≡ false
  unfolding scan_line
  has_forbidden-warnings n line [] = refl
  has_forbidden-warnings n line ((pattern, label) ∷ rules) =
      ground (arith, has_forbidden-warnings n line rules)

  has_forbidden-scan_line :
      (n : ℕ) (line : String) (rules : List Rule)
      → has_forbidden (scan_line p forbidden n line rules) ≡ hits rules line
  unfolding scan_line
  has_forbidden-scan_line n line [] = refl
  has_forbidden-scan_line n line ((pattern, label) ∷ rules) =
      ground (arith, has_forbidden-scan_line n line rules)

  -- Some line is hit by a built-in forbidden pattern or by one of the policy.
  abbrev pub any_hit : List String → List String → Bool
  any_hit extra lines = any (λ l. hits forbidden_rules l || hits (policy_rules extra) l) lines

  has_forbidden-scan_lines :
      (n : ℕ) (extra lines : List String)
      → has_forbidden (scan_lines p n extra lines) ≡ any_hit extra lines
  unfolding scan_lines
  has_forbidden-scan_lines n extra [] = refl
  has_forbidden-scan_lines n extra (line ∷ lines) =
      rw
        (
          any-append _ (scan_line p warning n line warnings) _,
          any-append _ (scan_line p forbidden n line forbidden_rules) _,
          any-append _ (scan_line p forbidden n line (policy_rules extra)) _,
          has_forbidden-warnings n line warnings,
          has_forbidden-scan_line n line forbidden_rules,
          has_forbidden-scan_line n line (policy_rules extra),
          has_forbidden-scan_lines (n + 1) extra lines,
        )
        (ground arith)

  -- A script has a FORBIDDEN finding exactly if some line of it is hit by a forbidden pattern or by a
  -- pattern of the policy; warnings do not count.
  pub has_forbidden-scan :
      (content : String) (extra : List String)
      → has_forbidden (scan p content extra) ≡ any_hit extra (splitlines content)
  unfolding scan
  has_forbidden-scan content extra = has_forbidden-scan_lines 1 extra (splitlines content)
