-- ===== src/HandoffSender/Service/Confirm.antt =====
-- `Confirm` of server/internal/handoffsender/service.go.
use Prim.Native.String.{◌++◌}
use leads_engine.Base.{ℕ, true, false, Option, none, some, String, List, ok, err}
use leads_engine.HandoffSender.{
  confirmed, delivered, revoked, Snapshot, DeliveryResult, Reply, Config,
}
use leads_engine.HandoffSender.Input.{ConfirmedInput}
use leads_engine.HandoffSender.Table.{by_fingerprint, next_version, insert_row}
use leads_engine.HandoffSender.Service.{
  already_revoked, document_refused, insert_refused, Registry, no_note, kept_for_retry,
  already_confirmed, confirmed_in_parallel, ConfirmResult, ConfirmStep, still, return_target_id,
  confirm_refusal, deliver_step,
}

-- A snapshot with this fingerprint is there.
unfoldable pub confirm_existing :
    Config → String → Reply DeliveryResult → List Snapshot → Snapshot → ConfirmStep
unfolding deliver_step
confirm_existing cfg at reply rows h =
    let same : ConfirmResult = record {
      handoff = some h;
      duplicate = true;
      is_delivered = false;
      note = already_confirmed;
    } in
    elim h.local_status [
      | revoked ↦ still rows (err already_revoked)
      | delivered ↦ still rows (ok same)
      | _ ↦ deliver_step cfg at reply rows h true no_note kept_for_retry
    ]

-- A snapshot that a confirmation makes.
unfoldable pub new_snapshot :
    Config
    → ConfirmedInput
    → String
    → String
    → String
    → ℕ
    → String
    → String
    → String
    → String
    → String
    → Snapshot
new_snapshot cfg i principal issuer by version fingerprint hex doc sha at = record {
  id = "ohf_" ++ hex;
  tenant_id = i.tenant_id;
  opportunity_id = i.opportunity_id;
  source_version = version;
  fingerprint = fingerprint;
  handoff_id = "handoff-" ++ hex;
  doc_json = doc;
  doc_sha256 = sha;
  source_revision = fingerprint;
  principal_id = principal;
  actor_issuer = issuer;
  actor_subject = principal;
  target_app = cfg.target_app_id;
  return_target_id = return_target_id;
  local_status = confirmed;
  draft_ref = "";
  target_status = "";
  target_dirty = false;
  target_revoked = false;
  last_http_status = none;
  last_error = "";
  confirmed_by = by;
  confirmed_at = at;
  delivered_at = none;
  revoked_at = none;
  updated_at = at;
}

-- The insertion failed: the row of a confirmation in parallel is read, if there is one.
unfoldable pub confirm_parallel : List Snapshot → ConfirmedInput → String → ConfirmStep
confirm_parallel rows i fingerprint =
    elim (by_fingerprint i.opportunity_id i.tenant_id fingerprint rows) [
      | none ↦ still rows (err insert_refused)
      | some h ↦ still rows (
          ok (record {
            handoff = some h;
            duplicate = true;
            is_delivered = false;
            note = confirmed_in_parallel;
          }))
    ]

unfoldable pub confirm_new :
    Config → String → Reply DeliveryResult → List Snapshot → ConfirmedInput → Snapshot → ConfirmStep
unfolding deliver_step confirm_parallel
confirm_new cfg at reply rows i new = elim (insert_row new rows) [
  | none ↦ confirm_parallel rows i new.fingerprint
  | some rows' ↦ deliver_step cfg at reply rows' new false no_note kept_for_retry
]

-- What the code does not implement, or reads from elsewhere: the registry, the hash of an input's
-- canonical JSON, the hash of a document, and the document, if it passes the sender's own checks.
pub record Facts : Type 0 where
  pub registry : Registry
  pub fingerprint : ConfirmedInput → String
  pub sha256 : String → String
  pub document : ConfirmedInput → String → String → ℕ → String → String → String → Option String

-- Who confirms, the random part of the id, and the clock.
pub record Asked : Type 0 where
  pub principal_id : String
  pub actor_issuer : String
  pub confirmed_by : String
  pub hex : String
  pub at : String

unfoldable pub confirm_document :
    Config → Facts → List Snapshot → ConfirmedInput → Asked → Option String
confirm_document cfg facts rows i asked =
    facts.document i (facts.fingerprint i) ("handoff-" ++ asked.hex)
      (next_version i.opportunity_id i.tenant_id rows) asked.principal_id asked.actor_issuer
      asked.at

unfoldable pub snapshot_of :
    Config → Facts → List Snapshot → ConfirmedInput → Asked → String → Snapshot
unfolding new_snapshot
snapshot_of cfg facts rows i asked doc =
    new_snapshot cfg i asked.principal_id asked.actor_issuer asked.confirmed_by
      (next_version i.opportunity_id i.tenant_id rows) (facts.fingerprint i) asked.hex doc
      (facts.sha256 doc) asked.at

-- With the settings and the input accepted.
unfoldable pub confirm_accepted :
    Config → Facts → Reply DeliveryResult → List Snapshot → ConfirmedInput → Asked → ConfirmStep
unfolding confirm_existing confirm_new
confirm_accepted cfg facts reply rows i asked =
    elim (by_fingerprint i.opportunity_id i.tenant_id (facts.fingerprint i) rows) [
      | some h ↦ confirm_existing cfg asked.at reply rows h
      | none ↦ elim (confirm_document cfg facts rows i asked) [
        | none ↦ still rows (err document_refused)
        | some doc ↦ confirm_new cfg asked.at reply rows i (snapshot_of cfg facts rows i asked doc)
      ]
    ]

unfoldable pub confirm :
    Config → Facts → Reply DeliveryResult → List Snapshot → ConfirmedInput → Asked → ConfirmStep
unfolding confirm_accepted
confirm cfg facts reply rows i asked = elim (confirm_refusal cfg facts.registry i) [
  | some e ↦ still rows (err e)
  | none ↦ confirm_accepted cfg facts reply rows i asked
]
