-- ===== src/Tests/Altered.antt =====
-- An approval of a proposal whose stored plan was altered, at a concrete input.
use msp_fleet_public.Base.{◌≡◌, ◌≢◌, refl, ap, some, [], ◌∷◌, arith}
use msp_fleet_public.Adapter.Mock.{MockHost}
use msp_fleet_public.Broker.{World}
use msp_fleet_public.Failure.{err, refused, hash_mismatch}
use msp_fleet_public.Plan.{Plan}
use msp_fleet_public.Plan.Json.{plan_json}
use msp_fleet_public.Plan.Json.Injective.{ne_of_test}
use msp_fleet_public.Platform.{plan_hash, decimal}
use msp_fleet_public.Samples.{platform, broker, staged, approver, row_of, echo_plan}
use msp_fleet_public.Service.Altered.{approve_altered}
use msp_fleet_public.Service.Decide.{approve}
use msp_fleet_public.Store.{get}
use msp_fleet_public.Store.Rows.{Row, Status, is_proposed}

abbrev altered_plan : Plan
altered_plan = record echo_plan { operation = "mock.fail_now" }

abbrev altered : Row
altered = record (row_of Status.proposed) { plan = altered_plan }

abbrev altered_world : World MockHost
altered_world = record staged { proposals = altered ∷ [] }

is_other : altered_plan ≢ echo_plan
is_other e = ne_of_test "mock.fail_now" "mock.echo" refl (ap (λ (p : Plan). p.operation) e)

told_apart :
    platform.sha256 (platform.canonical (plan_json altered_plan))
      ≡ platform.sha256 (platform.canonical (plan_json echo_plan))
    → plan_json altered_plan ≡ plan_json echo_plan
unfolding plan_json decimal
told_apart e = absurd (ne_of_test "21" "17" refl e)

approve_altered_example :
    let (x, w') = approve broker approver "0" "" altered_world in
    (x ≡ err (refused hash_mismatch))
    × (w'.host ≡ staged.host)
    × (w'.receipts ≡ staged.receipts)
    × (q : Row) × (get w'.proposals "0" ≡ some q)
    × (q.status ≡ Status.failed)
unfolding is_proposed
approve_altered_example =
    approve_altered broker approver "0" "" altered_world altered echo_plan refl (unfold get in refl)
      refl refl (omega arith) (unfold plan_hash decimal in refl) is_other told_apart
