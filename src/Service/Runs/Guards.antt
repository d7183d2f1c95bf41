-- ===== src/Service/Runs/Guards.antt =====
-- What has to hold for `_execute_operation` and `_execute_script` to act on the host
-- (roles/msp_broker/files/broker/service.py).
use msp_fleet_public.Base.{
  ℕ, String, Bool, true, false, pos, ◌≡◌, ◌≢◌, refl, Option, none, some, List, arith, ◌==◌, ◌<>◌,
}
use msp_fleet_public.Adapter.{Adapter, File, regular, symlink}
use msp_fleet_public.Broker.{Broker, World}
use msp_fleet_public.Broker.Actions.{adapter, on_host, except_adapter_error, present}
use msp_fleet_public.Exec.{Exec, lift, gets, ◌>>=◌}
use msp_fleet_public.Failure.{Result, ok, err, adapter_error, crash}
use msp_fleet_public.Plan.{Target, State, ExecResult, Script, failure}
use msp_fleet_public.Service.Runs.{execute_operation, execute_script, run_frozen}
use msp_fleet_public.Service.Views.{or_empty}
use msp_fleet_public.Store.Rows.{Row}
use msp_fleet_public.Value.{lookup}

module _ {H : Type 0} (b : Broker H) (p : Row) (target : Target) (w : World H) (a : Adapter H)
    (registered : lookup p.adapter b.adapters ≡ some a) where
  -- If the adapter compares states and the fresh state does not match the stored one, the operation
  -- is not run: the answer is exit code 1 with both states, and the host is as the precheck left it.
  pub execute_operation_drifted :
      (hold : State → State → Bool) (fresh : State) (h : H)
      → a.preconditions_hold ≡ some hold
      → a.precheck p.operation target p.parameters w.host ≡ (ok fresh, h)
      → hold (or_empty p.pre_state) fresh ≡ false
      → execute_operation b p target w ≡ (
        ok (record (failure (pos 1) "target state changed; restage and reapprove") {
          pre_state = or_empty p.pre_state;
          post_state = fresh;
        }),
        record w { host = h },
      )
  unfolding execute_operation adapter on_host except_adapter_error ◌>>=◌
  execute_operation_drifted hold fresh h has observed moved =
      rw (registered, observed, has, moved) refl

  -- If the precheck raises an AdapterError, the operation is not run: the answer is exit code 1 with
  -- its text, and the host is as the precheck left it.
  pub execute_operation_unread :
      (e : String) (h : H)
      → a.precheck p.operation target p.parameters w.host ≡ (err (adapter_error e), h)
      → execute_operation b p target w
        ≡ (ok (failure (pos 1) ("precheck failed: " <> e)), record w { host = h })
  unfolding execute_operation adapter on_host except_adapter_error ◌>>=◌
  execute_operation_unread e h observed = rw (registered, observed) refl

module _ {H : Type 0} (b : Broker H) where
  -- What was at the path of a script that acted on the host.
  pub record Frozen (p : Row) (w : World H) : Type 0 where
    pub script : Script
    pub bytes : List ℕ
    pub planned : p.plan.script ≡ some script
    pub stored : w.files script.path ≡ some (regular bytes)
    pub intact : (b.platform.sha256 bytes == script.sha256) ≡ true

  run_frozen-Frozen :
      (a : Adapter H) (p : Row) (s : Script) (o : Option File) (w : World H)
      → p.plan.script ≡ some s
      → w.files s.path ≡ o
      → (run_frozen b a p s o w).1.host ≢ w.host
      → Frozen p w
  run_frozen-Frozen a p s none w e f changed = absurd (changed refl)
  run_frozen-Frozen a p s (some (symlink bytes)) w e f changed = absurd (changed refl)
  run_frozen-Frozen a p s (some (regular bytes)) w e f changed = record {
    script = s;
    bytes = bytes;
    planned = e;
    stored = f;
    intact = ground arith;
  }

  -- What follows the adapter, for a plan with and without a script.
  abbrev script_run : Adapter H → Row → Option Script → Exec (World H) ExecResult
  script_run a p o =
      lift (present o crash) >>= λ s. gets (λ w. w.files s.path) >>= λ file. run_frozen b a p s file

  script_run-Frozen :
      (a : Adapter H) (p : Row) (o : Option Script) (w : World H)
      → p.plan.script ≡ o
      → (script_run a p o w).1.host ≢ w.host
      → Frozen p w
  unfolding ◌>>=◌
  script_run-Frozen a p none w e changed = absurd (changed refl)
  script_run-Frozen a p (some s) w e changed = run_frozen-Frozen a p s _ w e refl changed

  with_adapter :
      (r : Result (Adapter H)) (p : Row) (w : World H)
      → ((lift r >>= λ a. script_run a p p.plan.script) w).1.host ≢ w.host
      → Frozen p w
  unfolding ◌>>=◌
  with_adapter (ok a) p w changed = script_run-Frozen a p _ w refl changed
  with_adapter (err e) p w changed = absurd (changed refl)

  -- Executing a script changes the host only if the file at the frozen path is no symbolic link and
  -- its bytes have the hash that the plan froze.
  pub host-execute_script-Frozen :
      (p : Row) (w : World H) → (execute_script b p w).1.host ≢ w.host → Frozen p w
  unfolding execute_script adapter
  host-execute_script-Frozen p w changed = with_adapter _ p w changed
