-- ===== src/HandoffSender/Service/Run.antt =====
-- A run of the sender: any calls, in any order, each with what the receiver answers to it.
use leads_engine.Base.{String, List, [], ◌∷◌, Option}
use leads_engine.HandoffSender.{Snapshot, DeliveryResult, TargetProjection, Reply, Config}
use leads_engine.HandoffSender.Input.{ConfirmedInput}
use leads_engine.HandoffSender.Service.Confirm.{Facts, Asked, confirm}
use leads_engine.HandoffSender.Service.Latest.{retry, refresh, revoke}

pub data Call : Type 0 where
  call_confirm : ConfirmedInput → Asked → Reply DeliveryResult → Call
  call_retry : String → String → String → String → Reply DeliveryResult → Call
  call_refresh call_revoke : String → String → String → Reply TargetProjection → Call

-- The rows after a call, and the snapshot that it posted.
unfoldable pub rows_after : Config → Facts → List Snapshot → Call → List Snapshot
rows_after cfg facts rows (call_confirm i asked reply) = (confirm cfg facts reply rows i asked).rows
rows_after cfg facts rows (call_retry opportunity tenant requested at reply) =
    (retry cfg at reply rows opportunity tenant requested).rows
rows_after cfg facts rows (call_refresh opportunity tenant at reply) =
    (refresh cfg at reply rows opportunity tenant).rows
rows_after cfg facts rows (call_revoke opportunity tenant at reply) =
    (revoke cfg at reply rows opportunity tenant).rows

unfoldable pub posted_by : Config → Facts → List Snapshot → Call → Option Snapshot
posted_by cfg facts rows (call_confirm i asked reply) =
    (confirm cfg facts reply rows i asked).posted
posted_by cfg facts rows (call_retry opportunity tenant requested at reply) =
    (retry cfg at reply rows opportunity tenant requested).posted
posted_by cfg facts rows (call_refresh opportunity tenant at reply) =
    (refresh cfg at reply rows opportunity tenant).posted
posted_by cfg facts rows (call_revoke opportunity tenant at reply) =
    (revoke cfg at reply rows opportunity tenant).posted

unfoldable pub run : Config → Facts → List Snapshot → List Call → List Snapshot
run cfg facts rows [] = rows
run cfg facts rows (c ∷ calls) = run cfg facts (rows_after cfg facts rows c) calls

unfoldable pub posts_of : Config → Facts → List Snapshot → List Call → List (Option Snapshot)
posts_of cfg facts rows [] = []
posts_of cfg facts rows (c ∷ calls) =
    posted_by cfg facts rows c ∷ posts_of cfg facts (rows_after cfg facts rows c) calls
