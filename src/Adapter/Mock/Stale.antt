-- ===== src/Adapter/Mock/Stale.antt =====
-- The drift test of the mock adapter (roles/msp_broker/files/broker/mock.py).
use msp_fleet_public.Base.{String, false, ◌≡◌, ◌==◌, arith}
use msp_fleet_public.Adapter.Mock.{MockHost, load, precheck, preconditions_hold, after_run, execute}
use msp_fleet_public.Failure.{ok}
use msp_fleet_public.Params.{Params}
use msp_fleet_public.Plan.{Plan, Target, State, found_eq, atom_eq}

-- What was observed before an execution of any operation but "mock.fail" no longer holds after it,
-- whatever operation and target are observed then.
pub drift_after_execute :
    (operation other : String) (target seen : Target) (parameters ps : Params) (plan : Plan)
    (h : MockHost) (before after : State)
    → (operation == "mock.fail") ≡ false
    → (precheck other seen ps h).0 ≡ ok before
    → (precheck other seen ps (execute operation target parameters plan h).1).0 ≡ ok after
    → preconditions_hold before after ≡ false
unfolding precheck execute load after_run preconditions_hold found_eq atom_eq
drift_after_execute operation other target seen parameters ps plan h before after ran b a =
    ground arith
