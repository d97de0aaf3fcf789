-- ===== src/HandoffSender/Receiver.antt =====
-- `Deliver`, `FetchProjection` and the booking of a delivery: server/internal/handoffsender/
-- deliver.go and service.go.
use Prim.Native.String.{◌++◌}
use leads_engine.Base.{
  ℕ, Bool, true, false, ◌&&◌, ◌||◌, not, Option, none, some, String, if◌then◌else◌, nat_eq, Result,
  ok, err, blank, itoa,
}
use leads_engine.HandoffSender.{
  delivered, delivery_failed, Snapshot, DeliveryResult, TargetProjection, Reply, no_answer,
  answered, Failure, receiver_conflict, receiver_rejected, receiver_error, transport, Config,
}

-- The channel is configured.
unfoldable pub has_channel : Config → Bool
has_channel cfg = not (blank cfg.intake_url) && not (blank cfg.token)

unfoldable pub read_result : ℕ → Option DeliveryResult → Result Failure DeliveryResult
read_result status none =
    err (transport ("unreadable receiver result (HTTP " ++ (itoa status ++ ")")))
read_result status (some r) = ok r

-- `Deliver`, on what the receiver answers. A reply's text is its machine code.
unfoldable pub receive : Config → Reply DeliveryResult → Result Failure DeliveryResult
unfolding has_channel read_result
receive cfg (no_answer why) =
    if not (has_channel cfg)
    then err (transport "receiver intake is not configured (fail-closed)")
    else err (transport why)
receive cfg (answered status body code) =
    if not (has_channel cfg)
    then err (transport "receiver intake is not configured (fail-closed)")
    else if nat_eq status 201 || nat_eq status 200
    then read_result status body
    else if nat_eq status 409
    then err receiver_conflict
    else if nat_eq status 422
    then err (receiver_error code)
    else err (transport ("receiver answered HTTP " ++ itoa status))

-- `errors.Is(err, ErrReceiverConflict)`, `errors.Is(err, ErrReceiverRejected)` and
-- `errors.Is(err, ErrTransport)`: a `ReceiverError` wraps none of them.
unfoldable pub is_conflict : Failure → Bool
is_conflict receiver_conflict = true
is_conflict _ = false

unfoldable pub is_rejected : Failure → Bool
is_rejected receiver_rejected = true
is_rejected _ = false

unfoldable pub is_transport : Failure → Bool
is_transport (transport _) = true
is_transport _ = false

-- `statusOf`, on an error.
unfoldable pub status_of : Failure → Option ℕ
status_of receiver_conflict = some 409
status_of receiver_rejected = some 422
status_of (receiver_error _) = some 422
status_of (transport _) = none

unfoldable pub failure_text : Failure → String
failure_text receiver_conflict = "handoffsender: receiver conflict (same key, different content)"
failure_text receiver_rejected = "handoffsender: receiver rejected the handoff"
failure_text (receiver_error code) = "receiver rejected: " ++ code
failure_text (transport why) = "handoffsender: delivery transport failure: " ++ why

-- The snapshot after one attempt.
unfoldable pub booked : Snapshot → Result Failure DeliveryResult → Snapshot
unfolding is_conflict is_rejected status_of
booked h (ok r) = record h {
  local_status = delivered;
  draft_ref = r.draft_ref;
  target_status = r.status;
  target_dirty = r.dirty;
  target_revoked = r.is_revoked;
  last_error = "";
  last_http_status = some 201;
}
booked h (err f) =
    if is_conflict f || is_rejected f
    then record h { last_error = failure_text f; last_http_status = status_of f }
    else record h {
      local_status = delivery_failed;
      last_error = failure_text f;
      last_http_status = status_of f;
    }

pub data Lookup : Type 0 where
  projected : TargetProjection → Lookup
  not_received unreachable : Lookup

-- `FetchProjection`.
unfoldable pub look_up : Config → Reply TargetProjection → Lookup
unfolding has_channel
look_up cfg (no_answer why) = unreachable
look_up cfg (answered status body code) =
    if not (has_channel cfg)
    then unreachable
    else if nat_eq status 200
    then elim body [ none ↦ unreachable | some p ↦ projected p ]
    else if nat_eq status 404
    then not_received
    else unreachable
