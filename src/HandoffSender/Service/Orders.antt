-- ===== src/HandoffSender/Service/Orders.antt =====
-- What each call of server/internal/handoffsender/service.go may do to the table: the row that it may
-- touch, what it may write, and for which reasons it changes nothing.
use leads_engine.Base.{
  Bool, true, false, ◌≡◌, ◌⊎◌, ◌&&◌, Option, none, some, String, List, Result, ◌≢◌, nat_eq,
}
use leads_engine.HandoffSender.{
  Snapshot, confirmed, delivered, delivery_failed, revoked, Config, Reply, DeliveryResult,
  TargetProjection, Failure, answered, no_answer,
}
use leads_engine.HandoffSender.Service.Statuses.{is_live}
use leads_engine.HandoffSender.Service.Asks.{may_revoke}
use leads_engine.HandoffSender.Receiver.{receive, has_channel}
use leads_engine.HandoffSender.Table.{any_collides, by_fingerprint, latest}
use leads_engine.HandoffSender.Service.{Error, confirm_refusal}
use leads_engine.HandoffSender.Service.Confirm.{Facts, confirm_document, snapshot_of}
use leads_engine.HandoffSender.Service.Run.{
  Call, call_confirm, call_retry, call_refresh, call_revoke,
}

-- An existing row that the call delivers, the receiver's answer and the time. A confirmation whose
-- settings and input pass delivers the row with the fingerprint of its input, if that is neither
-- delivered nor revoked; a retry the latest row, which is the one that it names, if it names one.
abbrev pub Delivers :
    Config
    → Facts
    → Call
    → List Snapshot
    → Snapshot
    → Result Failure DeliveryResult
    → String
    → Type 0
Delivers cfg facts (call_confirm i asked reply) rows h r at =
    (confirm_refusal cfg facts.registry i ≡ none)
    × (by_fingerprint i.opportunity_id i.tenant_id (facts.fingerprint i) rows ≡ some h)
    × ((h.local_status ≡ confirmed) ⊎ (h.local_status ≡ delivery_failed))
    × (r ≡ receive cfg reply)
    × (at ≡ asked.at)
Delivers cfg facts (call_retry opportunity tenant requested now reply) rows h r at =
    (latest opportunity tenant rows ≡ some h)
    × ((requested ≡ "") ⊎ (requested ≡ h.handoff_id))
    × (r ≡ receive cfg reply)
    × (at ≡ now)
Delivers cfg facts _ rows h r at = ⊥

-- A new row that a confirmation makes: its settings and its input pass, no row has the fingerprint,
-- and the document passes the sender's checks.
abbrev pub Inserts :
    Config
    → Facts
    → Call
    → List Snapshot
    → Snapshot
    → Result Failure DeliveryResult
    → String
    → Type 0
Inserts cfg facts (call_confirm i asked reply) rows new r at =
    (confirm_refusal cfg facts.registry i ≡ none)
    × (by_fingerprint i.opportunity_id i.tenant_id (facts.fingerprint i) rows ≡ none)
    × ((doc : String) × (confirm_document cfg facts rows i asked ≡ some doc)
        × (new ≡ snapshot_of cfg facts rows i asked doc))
    × (r ≡ receive cfg reply)
    × (at ≡ asked.at)
Inserts cfg facts _ rows new r at = ⊥

-- The projection that the receiver answers with to the refresh of the latest row.
abbrev pub Projects : Config → Call → List Snapshot → Snapshot → TargetProjection → String → Type 0
Projects cfg (call_refresh opportunity tenant now reply) rows h p at =
    (latest opportunity tenant rows ≡ some h)
    × (has_channel cfg ≡ true)
    × ((code : String) × (reply ≡ answered 200 (some p) code))
    × (at ≡ now)
Projects cfg _ rows h p at = ⊥

-- The latest row of the opportunity, not revoked, which may be revoked by what it holds and by what
-- the receiver answers.
abbrev pub Revokes : Config → Call → List Snapshot → Snapshot → String → String → Type 0
Revokes cfg (call_revoke opportunity tenant now reply) rows h owner at =
    (latest opportunity tenant rows ≡ some h)
    × (is_live h.local_status ≡ true)
    × (may_revoke cfg reply h ≡ true)
    × (owner ≡ tenant)
    × (at ≡ now)
Revokes cfg _ rows h owner at = ⊥

-- The receiver is configured and answers 200 with a readable projection.
abbrev pub gives_projection : Config → Reply TargetProjection → Bool
gives_projection cfg (no_answer why) = false
gives_projection cfg (answered status none code) = false
gives_projection cfg (answered status (some p) code) = has_channel cfg && nat_eq status 200

-- Why a call changes nothing: its settings or its input do not pass, the row with its fingerprint is
-- revoked or delivered, its document does not pass or its snapshot collides; there is no row, the
-- latest one is revoked, or the call names another; the receiver gives no projection; or the row may
-- not be revoked.
abbrev pub Stays : Config → Facts → Call → List Snapshot → Type 0
Stays cfg facts (call_confirm i asked reply) rows =
    ((e : Error) × (confirm_refusal cfg facts.registry i ≡ some e))
    ⊎ ((h : Snapshot) × (by_fingerprint i.opportunity_id i.tenant_id (facts.fingerprint i) rows
          ≡ some h)
        × ((h.local_status ≡ revoked) ⊎ (h.local_status ≡ delivered)))
    ⊎ ((by_fingerprint i.opportunity_id i.tenant_id (facts.fingerprint i) rows ≡ none)
        × (confirm_document cfg facts rows i asked ≡ none))
    ⊎ ((by_fingerprint i.opportunity_id i.tenant_id (facts.fingerprint i) rows ≡ none)
        × (doc : String) × (confirm_document cfg facts rows i asked ≡ some doc)
        × (any_collides (snapshot_of cfg facts rows i asked doc) rows ≡ true))
Stays cfg facts (call_retry opportunity tenant requested now reply) rows =
    (latest opportunity tenant rows ≡ none)
    ⊎ ((h : Snapshot) × (latest opportunity tenant rows ≡ some h)
        × ((h.local_status ≡ revoked) ⊎ ((requested ≢ "") × (requested ≢ h.handoff_id))))
Stays cfg facts (call_refresh opportunity tenant now reply) rows =
    (latest opportunity tenant rows ≡ none)
    ⊎ ((h : Snapshot) × (latest opportunity tenant rows ≡ some h) × (h.local_status ≡ revoked))
    ⊎ (gives_projection cfg reply ≡ false)
Stays cfg facts (call_revoke opportunity tenant now reply) rows =
    (latest opportunity tenant rows ≡ none)
    ⊎ ((h : Snapshot) × (latest opportunity tenant rows ≡ some h)
        × ((h.local_status ≡ revoked) ⊎ (may_revoke cfg reply h ≡ false)))

-- A delivery posts the row where the channel is configured, and else nothing.
abbrev pub Posts : Config → Snapshot → Option Snapshot → Type 0
Posts cfg h posted =
    ((has_channel cfg ≡ true) × (posted ≡ some h)) ⊎ ((has_channel cfg ≡ false) × (posted ≡ none))
