-- ===== src/HandoffSender/Service/Latest.antt =====
-- `Retry`, `Refresh` and `Revoke` of server/internal/handoffsender/service.go, each of the latest
-- snapshot of an opportunity.
use leads_engine.Base.{false, ◌&&◌, not, Option, none, some, String, ◌==◌, List, if◌then◌else◌, err}
use leads_engine.HandoffSender.{
  Status, confirmed, delivered, delivery_failed, revoked, Snapshot, DeliveryResult,
  TargetProjection, Reply, Config,
}
use leads_engine.HandoffSender.Receiver.{Lookup, projected, not_received, unreachable, look_up}
use leads_engine.HandoffSender.Table.{by_handoff_id, latest, update_delivery, mark_revoked}
use leads_engine.HandoffSender.Service.{
  Error, superseded, already_revoked, accepted_by_target, cannot_confirm_target_state,
  handoff_not_found, receiver_unreachable, resent, still_pending, ConfirmStep, ShowStep, still,
  deliver_step,
}

-- `Retry`
unfoldable pub retry_latest :
    Config → String → Reply DeliveryResult → List Snapshot → String → Snapshot → ConfirmStep
unfolding deliver_step
retry_latest cfg at reply rows requested h =
    if not (requested == "") && not (requested == h.handoff_id)
    then still rows (err superseded)
    else elim h.local_status [
      | revoked ↦ still rows (err already_revoked)
      | _ ↦ deliver_step cfg at reply rows h false resent still_pending
    ]

unfoldable pub retry :
    Config → String → Reply DeliveryResult → List Snapshot → String → String → String → ConfirmStep
unfolding retry_latest
retry cfg at reply rows opportunity tenant requested = elim (latest opportunity tenant rows) [
  | none ↦ still rows (err handoff_not_found)
  | some h ↦ retry_latest cfg at reply rows requested h
]

-- `Refresh`
unfoldable pub projected_onto : TargetProjection → Snapshot → Snapshot
projected_onto p h = record h {
  target_status = p.status;
  target_dirty = p.dirty;
  target_revoked = p.is_revoked;
  draft_ref = p.draft_ref;
}

unfoldable pub refresh_by : String → List Snapshot → Snapshot → Lookup → ShowStep
unfolding projected_onto
refresh_by at rows h (projected p) =
    still (update_delivery (projected_onto p h) at rows) (some (projected_onto p h), none)
refresh_by at rows h not_received = still rows (some h, none)
refresh_by at rows h unreachable = still rows (some h, some receiver_unreachable)

unfoldable pub refresh :
    Config → String → Reply TargetProjection → List Snapshot → String → String → ShowStep
unfolding refresh_by
refresh cfg at reply rows opportunity tenant = elim (latest opportunity tenant rows) [
  | none ↦ still rows (none, some handoff_not_found)
  | some h ↦ elim h.local_status [
    | revoked ↦ still rows (some h, none)
    | _ ↦ refresh_by at rows h (look_up cfg reply)
  ]
]

-- `Revoke`
unfoldable pub revoke_row : String → List Snapshot → Snapshot → String → ShowStep
revoke_row at rows h tenant =
    let rows' = mark_revoked h.id tenant at rows in
    still rows' (by_handoff_id h.handoff_id tenant rows', none)

-- What the receiver says against a revocation.
unfoldable pub lookup_refusal : Lookup → Option Error
lookup_refusal (projected p) =
    if p.is_revoked
    then none
    else if not (p.status == "") && not (p.status == "draft")
    then some accepted_by_target
    else if p.dirty
    then some accepted_by_target
    else none
lookup_refusal not_received = none
lookup_refusal unreachable = some cannot_confirm_target_state

-- The receiver is asked only of a snapshot that is delivered or confirmed.
unfoldable pub guard_refusal : Config → Reply TargetProjection → Status → Option Error
unfolding lookup_refusal
guard_refusal cfg reply delivered = lookup_refusal (look_up cfg reply)
guard_refusal cfg reply confirmed = lookup_refusal (look_up cfg reply)
guard_refusal cfg reply delivery_failed = none
guard_refusal cfg reply revoked = none

unfoldable pub revoke_latest :
    Config → String → Reply TargetProjection → List Snapshot → String → Snapshot → ShowStep
unfolding guard_refusal revoke_row
revoke_latest cfg at reply rows tenant h =
    if not (h.target_status == "") && not (h.target_status == "draft")
    then still rows (some h, some accepted_by_target)
    else elim (guard_refusal cfg reply h.local_status) [
      | some e ↦ still rows (some h, some e)
      | none ↦ revoke_row at rows h tenant
    ]

unfoldable pub revoke :
    Config → String → Reply TargetProjection → List Snapshot → String → String → ShowStep
unfolding revoke_latest
revoke cfg at reply rows opportunity tenant = elim (latest opportunity tenant rows) [
  | none ↦ still rows (none, some handoff_not_found)
  | some h ↦ elim h.local_status [
    | revoked ↦ still rows (some h, none)
    | _ ↦ revoke_latest cfg at reply rows tenant h
  ]
]
