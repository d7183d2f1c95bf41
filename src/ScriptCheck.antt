-- ===== src/ScriptCheck.antt =====
-- The static scan of roles/msp_broker/files/broker/scriptcheck.py; the regular expressions are kept
-- as texts, and searching with them is the platform's.
pub mod Found
use msp_fleet_public.Base.{
  ℕ, ◌+◌, String, Bool, true, false, List, [], ◌∷◌, ◌++◌, map, any, if◌then◌else◌,
}
use msp_fleet_public.Plan.{Finding, Severity, warning, forbidden}
use msp_fleet_public.Platform.{Platform, take_text}
use msp_fleet_public.Text.{strip, splitlines}

abbrev pub Rule : Type 0
Rule = String × String

-- `WARNINGS`
unfoldable pub warnings : List Rule
warnings =
    ("\\brm\\b", "recursive/file deletion")
    ∷ ("\\brmdir\\b", "directory removal")
    ∷ ("\\bmkfs\\b", "filesystem creation")
    ∷ ("\\bwipefs\\b", "filesystem signature wipe")
    ∷ ("\\bdd\\b", "raw device write")
    ∷ ("\\bzfs\\s+destroy\\b", "ZFS dataset destruction")
    ∷ ("\\bzpool\\s+destroy\\b", "ZFS pool destruction")
    ∷ ("\\bshutdown\\b", "system shutdown")
    ∷ ("\\breboot\\b", "system reboot")
    ∷ ("\\buserdel\\b", "user deletion")
    ∷ ("\\b(iptables|nft|firewall-cmd|ufw)\\b", "firewall change")
    ∷ ("\\bchmod\\s+(-[A-Za-z]+\\s+)*-[A-Za-z]*R", "recursive permission change")
    ∷ ("\\bchown\\s+(-[A-Za-z]+\\s+)*-[A-Za-z]*R", "recursive ownership change")
    ∷ ("\\b(apt|apt-get)\\s+(remove|purge|autoremove)\\b", "package removal")
    ∷ ("\\b(parted|fdisk|sgdisk)\\b", "disk partitioning")
    ∷ ("authorized_keys", "SSH key change")
    ∷ ("\\b(nohup|disown)\\b", "background process escape")
    ∷ ("\\bsystemctl\\s+(enable|mask)\\b", "persistent service change")
    ∷ ("\\bcrontab\\b|\\bat\\s+now\\b|\\bsystemd-run\\b", "scheduled job creation")
    ∷ ("\\bStart-Job\\b|\\bRegister-ScheduledTask\\b|\\bschtasks\\b", "Windows scheduled task")
    ∷ ("\\bRemove-Item\\b|\\bFormat-Volume\\b", "Windows destructive operation")
    ∷ []

-- `FORBIDDEN`
unfoldable pub forbidden_rules : List Rule
forbidden_rules =
    (
      "\\b(curl|wget)\\b[^\\n|;]*\\|[^\\n]*(bash|sh|python|perl|ruby)\\b",
      "piping remote content to an interpreter",
    )
    ∷ ("\\biex\\s*\\(\\s*(iwr|invoke-webrequest)\\b", "piping remote content to Invoke-Expression")
    ∷ (
      "\\bInvoke-Expression\\b[^\\n]*DownloadString",
      "remote content executed via Invoke-Expression",
    )
    ∷ (
      "\\bbase64\\s+(-d|--decode)\\b[^\\n|;]*\\|[^\\n]*(bash|sh)\\b",
      "decoding and piping content to a shell",
    )
    ∷ []

-- `(pattern, "policy pattern")` for each pattern of the policy
abbrev pub policy_rules : List String → List Rule
policy_rules patterns = map (λ p. (p, "policy pattern")) patterns

module _ (p : Platform) where
  -- One of the inner loops, over the rules of one severity.
  unfoldable pub scan_line : Severity → ℕ → String → List Rule → List Finding
  scan_line severity lineno line [] = []
  scan_line severity lineno line ((pattern, label) ∷ rules) =
      let rest = scan_line severity lineno line rules in
      if p.re_search pattern line
      then record {
        line = lineno;
        severity = severity;
        label = label;
        text = take_text 160 (strip line);
      }
        ∷ rest
      else rest

  unfoldable pub scan_lines : ℕ → List String → List String → List Finding
  unfolding scan_line
  scan_lines lineno extra [] = []
  scan_lines lineno extra (line ∷ lines) =
      scan_line warning lineno line warnings
      ++ (scan_line forbidden lineno line forbidden_rules
          ++ (scan_line forbidden lineno line (policy_rules extra)
              ++ scan_lines (lineno + 1) extra lines))

  unfoldable pub scan : String → List String → List Finding
  unfolding scan_lines
  scan content extra = scan_lines 1 extra (splitlines content)

abbrev pub severity_forbidden : Severity → Bool
severity_forbidden forbidden = true
severity_forbidden warning = false

-- `any(f["severity"] == "FORBIDDEN" for f in findings)`
abbrev pub has_forbidden : List Finding → Bool
has_forbidden findings = any (λ f. severity_forbidden f.severity) findings
