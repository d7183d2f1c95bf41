-- ===== src/Daemon.antt =====
-- How the daemon builds its service (roles/msp_broker/files/broker/daemon.py).
pub mod Seed
pub mod Ready
pub mod Inventory
use msp_fleet_public.Base.{
  ℕ, String, Bool, true, false, not, Option, none, some, List, [], ◌∷◌, ◌++◌, ◌==◌, any, contains,
  is_none, if◌then◌else◌,
}
use msp_fleet_public.Adapter.{Adapter}
use msp_fleet_public.Adapter.Guests.{survey}
use msp_fleet_public.Adapter.Proxmox.{proxmox}
use msp_fleet_public.Adapter.Remote.{Runner}
use msp_fleet_public.Broker.{Broker, World}
use msp_fleet_public.Broker.Actions.{on_host, except_adapter_error}
use msp_fleet_public.Config.{Json, Content}
use msp_fleet_public.Config.ClientConf.{load_client}
use msp_fleet_public.Config.PolicyFile.{load_policy}
use msp_fleet_public.Config.PolicyView.{policy_of}
use msp_fleet_public.Exec.{Exec, pure, lift, refuse_if, modify, ◌>>=◌, ◌>>◌}
use msp_fleet_public.Failure.{clients_disagree}
use msp_fleet_public.Daemon.Seed.{SeedFile, seed_rows}
use msp_fleet_public.Plan.{Client, Target}
use msp_fleet_public.Platform.{Platform}
use msp_fleet_public.Policy.{Policy, is_enabled}
use msp_fleet_public.Store.{inventory_upsert}
use msp_fleet_public.Value.{Value, str}

-- The files, the system and the environment of the daemon. The broker's store is in the world.
pub record Setup (H : Type 0) : Type 0 where
  pub platform : Platform
  pub json : Json
  pub policy_file : Content
  pub client_file : Content
  pub inventory_seed : SeedFile
  pub mock_adapter : Adapter H
  pub runner : Runner H
  pub observed : H → String
  pub clock : ℕ → ℕ
  pub uuid : ℕ → String
  pub proposals_dir : String

-- `client["client_id"] == policy["client_id"]`
abbrev pub is_same_client : Client → Value → Bool
is_same_client client (str s) = client.client_id == s
is_same_client client _ = false

module _ {H : Type 0} where
  unfoldable pub store_targets : List Target → Exec (World H) (Unit {0})
  store_targets ts = modify (λ w. record w { inventory = inventory_upsert ts w.inventory })

  unfoldable pub seed_inventory : Json → Client → SeedFile → Exec (World H) (Unit {0})
  unfolding seed_rows store_targets
  seed_inventory json client file = lift (seed_rows json client file) >>= store_targets

  -- `adapter.sync_inventory(client, store)`
  unfoldable pub sync_inventory : Setup H → Client → Exec (World H) (Unit {0})
  unfolding store_targets
  sync_inventory s client = on_host (survey s.platform s.runner client) >>= store_targets

  -- `try: sync_inventory` / `except AdapterError: pass`, on a host that is managed
  abbrev pub survey_if : Bool → Setup H → Client → Exec (World H) (Unit {0})
  survey_if true s client = except_adapter_error (sync_inventory s client) λ e. pure tt
  survey_if false s client = pure tt

  abbrev pub entry_if : Bool → String → Adapter H → List (String × Adapter H)
  entry_if true name a = (name, a) ∷ []
  entry_if false name a = []

  -- the adapters that the policy enables
  unfoldable pub adapters_for : Setup H → Policy → List (String × Adapter H)
  adapters_for s policy =
      entry_if (is_enabled policy "mock") "mock" s.mock_adapter
      ++ entry_if (is_enabled policy "proxmox") "proxmox" (proxmox s.platform s.runner s.observed)

  abbrev pub service_of : Setup H → Client → Policy → Broker H
  service_of s client policy = record {
    platform = s.platform;
    client = client;
    policy = policy;
    adapters = adapters_for s policy;
    clock = s.clock;
    uuid = s.uuid;
    proposals_dir = s.proposals_dir;
  }

  unfoldable pub build_service : Setup H → Exec (World H) (Broker H)
  unfolding seed_inventory sync_inventory
  build_service s = do
    fields ← lift (load_policy s.json s.policy_file)
    let policy = policy_of fields
    client ← lift (load_client s.client_file)
    refuse_if (not (is_same_client client policy.client_id)) clients_disagree
    seed_inventory s.json client s.inventory_seed
    survey_if (is_enabled policy "proxmox") s client
    pure (service_of s client policy)
