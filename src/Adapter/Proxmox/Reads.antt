-- ===== src/Adapter/Proxmox/Reads.antt =====
-- What the prechecks and the reads of the Proxmox adapter leave of its host
-- (roles/msp_broker/files/broker/proxmox.py), over a runner whose reading commands change nothing.
use msp_fleet_public.Base.{
  ℕ, String, Bool, true, not, ◌&&◌, ◌≡◌, refl, ◌∙◌, Option, List, [], ◌∷◌, ◌==◌, ◌<>◌, inl, inr,
  Bool-cases, if◌then◌else◌,
}
use msp_fleet_public.Adapter.{ReadsAreFree}
use msp_fleet_public.Adapter.Guests.{
  read_vms, read_vm, read_node, read_zpool, read, answer_now, describe,
}
use msp_fleet_public.Adapter.Proxmox.{precheck, proxmox}
use msp_fleet_public.Adapter.Remote.{Runner, run}
use msp_fleet_public.Exec.Keeps.{Keeps-lift, Keeps-bind, keeps_rules}
use msp_fleet_public.Exec.Rules.{Post, Keeps}
use msp_fleet_public.Failure.{Result, ok, err}
use msp_fleet_public.Params.{Params}
use msp_fleet_public.Plan.{Target}
use msp_fleet_public.Platform.{Platform}
use msp_fleet_public.Value.{Value, Fields}

-- The commands that only read: all but these two.
abbrev pub is_reading : List String → Bool
is_reading [] = true
is_reading (command ∷ args) = not (command == "exec") && not (command == "run-script")

-- The host is still `h`.
record Here {H : Type 0} (h k : H) : Type 0 where
  pub same : k ≡ h

module _ {H A : Type 0} {h : H} where
  stays : (r : Result A × H) → r.1 ≡ h → Post (λ _. Here h) (Here h) r
  stays (ok a, k) e = record { same = e }
  stays (err x, k) e = record { same = e }

  host_of : (r : Result A × H) → Post (λ _. Here h) (Here h) r → r.1 ≡ h
  host_of (ok a, k) e = e.same
  host_of (err x, k) e = e.same

module _ {H : Type 0} (p : Platform) (runner : Runner H) (observed : H → String)
    (reads : (argv : List String) (stdin : Option (List ℕ)) (timeout : ℕ) (h : H)
      → is_reading argv ≡ true
      → (runner argv stdin timeout h).1 ≡ h) where
  run-Here :
      (h : H) (codes : List ℕ) (argv : List String) (stdin : Option (List ℕ)) (timeout : ℕ)
      → is_reading argv ≡ true
      → Keeps (Here h) (run p runner codes argv stdin timeout)
  unfolding run
  run-Here h codes argv stdin timeout e =
      Keeps-bind _ _
        (record {
          at = λ k s. stays (runner argv stdin timeout k) (reads argv stdin timeout k e ∙ s.same);
        })
        λ v. Keeps-lift _

  answer_now-Here : (h : H) (fs : Fields) → Keeps (Here h) (answer_now p runner observed fs)
  answer_now-Here h fs = record { at = λ k s. s }

  ruleset reading = (keeps_rules, run-Here, answer_now-Here, refl)

  describe-Here :
      (h : H) (tool vmid kind : String)
      → is_reading ((tool <> "-config") ∷ []) ≡ true
      → is_reading ((tool <> "-status") ∷ []) ≡ true
      → Keeps (Here h) (describe p runner observed tool vmid kind)
  describe-Here h tool vmid kind e f = search reading depth 12

  describe_kind-Here :
      (h : H) (vmid kind : String)
      → Keeps (Here h) (describe p runner observed (if kind == "ct" then "pct" else "qm") vmid kind)
  describe_kind-Here h vmid kind = elim (Bool-cases (kind == "ct")) [
    | inl e ↦ rw e (describe-Here h "pct" vmid kind refl refl)
    | inr e ↦ rw e (describe-Here h "qm" vmid kind refl refl)
  ]

  read_vm-Here :
      (h : H) (inventory : List Target) (args : Value)
      → Keeps (Here h) (read_vm p runner observed inventory args)
  unfolding read_vm
  read_vm-Here h inventory args = search (reading, describe_kind-Here)

  read-Here :
      (h : H) (inventory : List Target) (verb : String) (args : Value)
      → Keeps (Here h) (read p runner observed inventory verb args)
  unfolding read read_vms read_node read_zpool
  read-Here h inventory verb args = search (reading, read_vm-Here) depth 20

  precheck-Here :
      (h : H) (operation : String) (target : Target) (parameters : Params)
      → Keeps (Here h) (precheck p runner observed operation target parameters)
  unfolding precheck
  precheck-Here h operation target parameters = search reading depth 20

  -- If the commands other than "exec" and "run-script" leave the host as it is, then so do the
  -- prechecks and the reads of the Proxmox adapter, whatever their arguments and whether they return
  -- or raise.
  pub proxmox-ReadsAreFree : ReadsAreFree (proxmox p runner observed)
  proxmox-ReadsAreFree = record {
    precheck_reads = λ operation target parameters h.
        host_of _ ((precheck-Here h operation target parameters).at h (record { same = refl }));
    read_reads = λ inventory verb args h.
        host_of _ ((read-Here h inventory verb args).at h (record { same = refl }));
  }
