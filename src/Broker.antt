-- ===== src/Broker.antt =====
-- The parts that the methods of `BrokerService` share (roles/msp_broker/files/broker/service.py):
-- the object, the world that it acts on, and its small helpers.
pub mod Actions
pub mod Frames
use msp_fleet_public.Base.{ℕ, String, Bool, Option, List}
use msp_fleet_public.Adapter.{Adapter, Files}
use msp_fleet_public.Plan.{Client, Target}
use msp_fleet_public.Platform.{Platform}
use msp_fleet_public.Policy.{Policy}
use msp_fleet_public.Registry.{Risk}
use msp_fleet_public.Store.{Table}
use msp_fleet_public.Store.Rows.{Receipt, Status}

-- What `os.open` and `fstat` find at a path of the requester.
pub record Scratch : Type 0 where
  pub is_regular : Bool
  pub st_size : ℕ
  pub st_uid : ℕ
  pub bytes : List ℕ

-- The lock file: free, held by another execution, or impossible to open.
pub data Lock : Type 0 where
  free held unopenable : Lock

-- A line of broker.log.
pub data Entry : Type 0 where
  proposed : String → String → String → Risk → ℕ → Entry
  proposed_script : String → String → String → ℕ → Entry
  proposed_plan : String → ℕ → Risk → ℕ → Entry
  approved : String → String → Risk → Entry
  rejected : String → String → Entry
  cancelled : String → ℕ → Entry
  executed : String → Status → Entry

-- The service object: what it is built from, the readings of its clock and the identifiers that
-- `uuid4` returns.
pub record Broker (H : Type 0) : Type 0 where
  pub platform : Platform
  pub client : Client
  pub policy : Policy
  pub adapters : List (String × Adapter H)
  pub clock : ℕ → ℕ
  pub uuid : ℕ → String
  pub proposals_dir : String

-- What a method may change. `ticks` and `ids` count the clock readings and identifiers used up;
-- `scratch` is the file system of the requesters, without its symbolic links.
pub record World (H : Type 0) : Type 0 where
  pub proposals : Table
  pub receipts : List (String × Receipt)
  pub inventory : List Target
  pub files : Files
  pub scratch : String → Option Scratch
  pub lock : Lock
  pub log : List (ℕ × Entry)
  pub host : H
  pub ticks : ℕ
  pub ids : ℕ
