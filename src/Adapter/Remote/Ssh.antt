-- ===== src/Adapter/Remote/Ssh.antt =====
-- The ssh command of the site (`__init__` and `_ssh` of roles/msp_broker/files/broker/proxmox.py): the
-- runner that the Proxmox adapter has in production. The process that is started is given.
use msp_fleet_public.Adapter.Remote.{Runner, allowed, exit_check, run}
use msp_fleet_public.Base.{
  ℕ, ℤ, pos, negsuc, String, Bool, true, false, ◌≡◌, ◌≢◌, refl, ◌∙◌, sym, Option, List, ◌∷◌, ◌==◌,
  ◌<>◌, arith, nat_eq, if◌then◌else◌,
}
use msp_fleet_public.Exec
use msp_fleet_public.Exec.{Exec, lift}
use msp_fleet_public.Failure.{Result, ok, err, adapter_error, crash, ◌>>=◌}
use msp_fleet_public.Platform.{Platform, sanitize, decimal}
use msp_fleet_public.Text.{strip}
use msp_fleet_public.Value.{str, Fields, get_or}

-- The attributes of the adapter that `_ssh` reads.
pub record Site : Type 0 where
  pub host : String
  pub user : String
  pub key : String
  pub known_hosts : String

-- `cfg.get(key, default)`, which a checked policy has as a text
abbrev cfg_text : String → String → Fields → String
cfg_text key other cfg = elim (get_or key (str other) cfg) [ str s ↦ s | _ ↦ other ]

unfoldable pub site_of : Fields → Site
site_of cfg = record {
  host = cfg_text "host" "" cfg;
  user = cfg_text "user" "msp-agent" cfg;
  key = cfg_text "key" "" cfg;
  known_hosts = cfg_text "known_hosts" "" cfg;
}

-- What `subprocess.run` gives: the return code with both outputs, a timeout, or another exception.
pub data Ended : Type 0 where
  exited : ℤ → List ℕ → List ℕ → Ended
  timed_out failed : Ended

-- A command that is started with standard input and a timeout, on the state of the host.
abbrev pub Process : Type 0 → Type 0
Process H = List String → Option (List ℕ) → ℕ → H → Ended × H

unfoldable pub command : Site → List String → List String
command site argv =
    "ssh"
    ∷ "-i"
    ∷ site.key
    ∷ "-o"
    ∷ "BatchMode=yes"
    ∷ "-o"
    ∷ "IdentitiesOnly=yes"
    ∷ "-o"
    ∷ "ConnectTimeout=10"
    ∷ "-o"
    ∷ "StrictHostKeyChecking=yes"
    ∷ "-o"
    ∷ ("UserKnownHostsFile=" <> site.known_hosts)
    ∷ (site.user <> "@" <> site.host)
    ∷ argv

module _ (p : Platform) where
  abbrev or_failed : String → String
  or_failed said = if said == "" then "ssh failed" else said

  abbrev pub cannot_reach_host : String → Result (ℤ × String × String)
  cannot_reach_host errors =
      err (adapter_error ("cannot reach host: " <> or_failed (sanitize p (strip errors))))

  abbrev is_255 : ℤ → Bool
  is_255 (pos n) = nat_eq n 255
  is_255 (negsuc n) = false

  -- The outputs as texts, or an AdapterError.
  unfoldable pub report : ℕ → Ended → Result (ℤ × String × String)
  unfolding decimal
  report timeout timed_out =
      err (adapter_error ("host did not answer in " <> decimal timeout <> "s"))
  report timeout failed = err crash
  report timeout (exited rc out errors) =
      if is_255 rc
      then cannot_reach_host (p.decode errors)
      else ok (rc, p.decode out, p.decode errors)

  module _ {H : Type 0} (process : Process H) where
    -- `_ssh`
    unfoldable pub ssh : Site → Runner H
    unfolding report command
    ssh site argv stdin timeout h =
        let (e, h') = process (command site argv) stdin timeout h in (report timeout e, h')

-- What a process ended with, when its report is accepted.
pub record Accepted (p : Platform) (codes : List ℕ) (e : Ended) (rc : ℤ) (out errors : String)
    : Type 0 where
  pub stdout : List ℕ
  pub stderr : List ℕ
  pub exit : e ≡ exited rc stdout stderr
  pub output : out ≡ p.decode stdout
  pub error_output : errors ≡ p.decode stderr
  pub code : allowed codes rc ≡ true
  pub reached : rc ≢ pos 255

checked-Accepted :
    (p : Platform) (codes : List ℕ) (timeout : ℕ) (e : Ended) (rc : ℤ) (out errors : String)
    → (report p timeout e >>= λ r. exit_check p codes r.0 r.1 r.2) ≡ ok (rc, out, errors)
    → Accepted p codes e rc out errors
unfolding report
checked-Accepted p codes timeout timed_out rc out errors h = cc
checked-Accepted p codes timeout failed rc out errors h = cc
checked-Accepted p codes timeout (exited (pos n) o o') rc out errors h = record {
  stdout = o;
  stderr = o';
  exit = ground arith;
  output = ground arith;
  error_output = ground arith;
  code = ground arith;
  reached = λ k. ground arith;
}
checked-Accepted p codes timeout (exited (negsuc n) o o') rc out errors h = cc

continue-lift :
    {H : Type 0} (r : Result (ℤ × String × String))
    (f : ℤ × String × String → Result (ℤ × String × String)) (h : H)
    → (Exec.continue r (λ a. lift (f a)) h).0 ≡ (r >>= f)
continue-lift (ok a) f h = refl
continue-lift (err e) f h = refl

-- A command of the adapter that returns over ssh went through one process, whose exit code is allowed
-- and is not 255, the code of ssh itself; its outputs are those of the process.
pub run-ssh :
    {H : Type 0} (p : Platform) (process : Process H) (site : Site) (codes : List ℕ)
    (argv : List String) (stdin : Option (List ℕ)) (timeout : ℕ) (h : H) (rc : ℤ)
    (out errors : String)
    → (run p (ssh p process site) codes argv stdin timeout h).0 ≡ ok (rc, out, errors)
    → Accepted p codes (process (command site argv) stdin timeout h).0 rc out errors
unfolding run ssh Exec.◌>>=◌
run-ssh p process site codes argv stdin timeout h rc out errors e =
    let (ended, h') = process (command site argv) stdin timeout h in
    checked-Accepted p codes timeout ended rc out errors
      (sym (continue-lift (report p timeout ended) (λ r. exit_check p codes r.0 r.1 r.2) h') ∙ e)
