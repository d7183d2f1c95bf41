-- ===== src/Service/ProposeScript/Forbidden.antt =====
-- A script with a forbidden line (roles/msp_broker/files/broker/service.py).
use msp_fleet_public.Base.{ℕ, String, true, ◌≡◌, refl, List}
use msp_fleet_public.Adapter.{Adapter}
use msp_fleet_public.Broker.{Broker, World}
use msp_fleet_public.Exec.{◌>>=◌}
use msp_fleet_public.Failure.{err, refused, forbidden_pattern}
use msp_fleet_public.Plan.{Target}
use msp_fleet_public.Policy.{Actor}
use msp_fleet_public.ScriptCheck.Found.{any_hit, has_forbidden-scan}
use msp_fleet_public.Service.ProposeScript.{stage_script}
use msp_fleet_public.Text.{splitlines}

-- A script in which some line is hit by a forbidden pattern, or by one of the policy, is refused
-- before anything happens: no identifier is used, no file is written and no proposal is stored.
pub stage_script_forbidden :
    {H : Type 0} (b : Broker H) (actor : Actor) (target : Target) (a : Adapter H)
    (interpreter : String) (timeout : ℕ) (purpose effects : String) (bytes : List ℕ) (w : World H)
    → any_hit b.platform b.policy.script.forbidden_patterns (splitlines (b.platform.decode bytes))
      ≡ true
    → stage_script b actor target a interpreter timeout purpose effects bytes w
      ≡ (err (refused forbidden_pattern), w)
unfolding stage_script ◌>>=◌
stage_script_forbidden b actor target a interpreter timeout purpose effects bytes w hit =
    rw
      (
        has_forbidden-scan b.platform (b.platform.decode bytes) b.policy.script.forbidden_patterns,
        hit,
      )
      refl
