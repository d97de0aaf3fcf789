-- ===== src/HandoffSender/Service.antt =====
-- server/internal/handoffsender/service.go: the results of its calls, the checks of the settings, and
-- one delivery. Calls run one after another on the rows of the table; what the receiver answers and
-- the clock are arguments. A step names the snapshot whose stored document it posted.
pub mod Confirm
pub mod Latest
pub mod Run
pub mod Cores
pub mod Statuses
pub mod Orders
pub mod Moves
pub mod SameBytes
pub mod Revoked
pub mod Newest
pub mod Asks
pub mod Accepted
pub mod Twice
pub mod Examples
use Prim.Native.String.{◌++◌}
use leads_engine.Base.{
  ℕ, Bool, true, false, ◌&&◌, ◌||◌, not, Option, none, some, String, ◌==◌, List, [], ◌∷◌,
  if◌then◌else◌, Result, ok, err,
}
use leads_engine.HandoffSender.{
  Status, confirmed, delivered, delivery_failed, revoked, Snapshot, DeliveryResult,
  TargetProjection, Reply, Failure, Config,
}
use leads_engine.HandoffSender.Input.{ConfirmedInput, Invalid, validate}
use leads_engine.HandoffSender.Receiver.{
  has_channel, receive, is_transport, booked, Lookup, projected, not_received, unreachable, look_up,
}
use leads_engine.HandoffSender.Table.{
  by_handoff_id, by_fingerprint, latest, next_version, insert_row, update_delivery, mark_revoked,
}

pub data Error : Type 0 where
  superseded already_revoked accepted_by_target cannot_confirm_target_state : Error
  not_configured handoff_not_found target_app_unknown return_target_unknown : Error
  tenant_scope_empty document_refused insert_refused receiver_unreachable : Error
  invalid_input : Invalid → Error
  receiver_failed : Failure → Error

-- `appregistry.Registry`, as far as `Confirm` asks it.
pub record Registry : Type 0 where
  pub self : Option (String × Bool)
  pub has_capability : String → String → Bool
  pub has_app : String → Bool
  pub has_return_target : String → Bool

pub data Note : Type 0 where
  no_note kept_for_retry already_confirmed confirmed_in_parallel resent still_pending : Note

pub record ConfirmResult : Type 0 where
  pub handoff : Option Snapshot
  pub duplicate : Bool
  pub is_delivered : Bool
  pub note : Note

-- A call: the rows after it, its answer, and the snapshot that was posted.
pub record Step {ℓ} (A : Type ℓ) : Type ℓ where
  pub rows : List Snapshot
  pub answer : A
  pub posted : Option Snapshot

abbrev pub ConfirmStep : Type 0
ConfirmStep = Step (Result Error ConfirmResult)

-- `Refresh` and `Revoke` return a snapshot beside the error.
abbrev pub ShowStep : Type 0
ShowStep = Step (Option Snapshot × Option Error)

abbrev pub still {ℓ} : {A : Type ℓ} → List Snapshot → A → Step A
still rows a = record { rows = rows; answer = a; posted = none }

unfoldable pub complete : Config → Bool
complete cfg =
    not (cfg.target_app_id == "")
    && not (cfg.tenant_scope == "")
    && not (cfg.intake_url == "")
    && not (cfg.token == "")

unfoldable pub tenant_scope_matches : String → String → Bool
tenant_scope_matches declared expected =
    if declared == "" || expected == "" then false else declared == expected

abbrev pub return_target_id : String
return_target_id = "rc-leads-engine-main"

-- What `Confirm` checks of its own app, then of the target.
unfoldable pub target_refusal : Config → Registry → Option Error
unfolding tenant_scope_matches
target_refusal cfg reg =
    if not (reg.has_app cfg.target_app_id)
    then some target_app_unknown
    else if not (reg.has_return_target return_target_id)
    then some return_target_unknown
    else if not (tenant_scope_matches cfg.tenant_scope cfg.tenant_scope)
    then some tenant_scope_empty
    else none

unfoldable pub setup_refusal : Config → Registry → Option Error
unfolding target_refusal
setup_refusal cfg reg = elim reg.self [
  | none ↦ some not_configured
  | some (app, enabled) ↦
      if not enabled || not (reg.has_capability app "leads.handoff")
      then some not_configured
      else target_refusal cfg reg
]

unfoldable pub confirm_refusal : Config → Registry → ConfirmedInput → Option Error
unfolding complete setup_refusal
confirm_refusal cfg reg i =
    if not (complete cfg)
    then some not_configured
    else elim (validate i) [ some e ↦ some (invalid_input e) | none ↦ setup_refusal cfg reg ]

-- The rows after `deliver` has booked what the receiver answered.
unfoldable pub booked_rows :
    Snapshot → Result Failure DeliveryResult → String → List Snapshot → List Snapshot
booked_rows h r at rows = update_delivery (booked h r) at rows

unfoldable pub sent_if : Config → Snapshot → Option Snapshot
sent_if cfg h = if has_channel cfg then some h else none

-- The answer after `deliver`: the row that is read back, or the snapshot with a note where the
-- receiver was not reached, or the error.
unfoldable pub after_delivery :
    List Snapshot
    → Snapshot
    → Bool
    → Note
    → Note
    → Result Failure DeliveryResult
    → Result Error ConfirmResult
after_delivery rows h dup good pending (ok r) = ok (record {
  handoff = by_handoff_id h.handoff_id h.tenant_id rows;
  duplicate = dup;
  is_delivered = true;
  note = good;
})
after_delivery rows h dup good pending (err f) =
    if is_transport f
    then ok (record {
      handoff = some (booked h (err f));
      duplicate = dup;
      is_delivered = false;
      note = pending;
    })
    else err (receiver_failed f)

unfoldable pub deliver_step :
    Config
    → String
    → Reply DeliveryResult
    → List Snapshot
    → Snapshot
    → Bool
    → Note
    → Note
    → ConfirmStep
unfolding after_delivery booked_rows sent_if
deliver_step cfg at reply rows h dup good pending =
    let r = receive cfg reply in
    record {
      rows = booked_rows h r at rows;
      answer = after_delivery (booked_rows h r at rows) h dup good pending r;
      posted = sent_if cfg h;
    }
