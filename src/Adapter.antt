-- ===== src/Adapter.antt =====
-- What the broker asks of an adapter (`Adapter` of roles/msp_broker/files/broker/adapters.py), over
-- a type `H` of host states. A call may read and change the host, and may raise.
pub mod Mock
pub mod Remote
pub mod Guests
pub mod Proxmox
use msp_fleet_public.Base.{ℕ, String, Bool, Option, List, ◌≡◌}
use msp_fleet_public.Exec.{Exec}
use msp_fleet_public.Params.{Params}
use msp_fleet_public.Value.{Value}
use msp_fleet_public.Plan.{Target, Plan, State, ExecResult}

-- What stands at a path: a file with its bytes, or a symbolic link to such a file.
pub data File : Type 0 where
  regular : List ℕ → File
  symlink : List ℕ → File

-- The files of the broker's proposal storage.
abbrev pub Files : Type 0
Files = String → Option File

-- The optional methods are those that the source looks for with `hasattr`.
pub record Adapter (H : Type 0) : Type 0 where
  -- `read`, with the broker's inventory, which the Proxmox adapter looks into
  pub read : List Target → String → Value → Exec H Value
  pub precheck : String → Target → Params → Exec H State
  pub preconditions_hold : Option (State → State → Bool)
  pub execute : String → Target → Params → Plan → Exec H ExecResult
  pub run_script : Option (String → String → ℕ → Files → Exec H ExecResult)

-- A precheck and a read leave the host as it is.
pub record ReadsAreFree {H : Type 0} (a : Adapter H) : Type 0 where
  pub precheck_reads :
      (operation : String) (target : Target) (parameters : Params) (h : H)
      → (a.precheck operation target parameters h).1 ≡ h
  pub read_reads :
      (inventory : List Target) (verb : String) (args : Value) (h : H)
      → (a.read inventory verb args h).1 ≡ h
