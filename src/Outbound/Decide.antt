-- ===== src/Outbound/Decide.antt =====
-- `Decide` of server/internal/outbound/decide.go and the functions that it calls.
pub mod Gate
pub mod Honest
mod Examples
use Prim.Native.String.{◌++◌}
use leads_engine.Base.{
  Bool, true, false, ◌&&◌, ◌||◌, not, Option, none, some, String, ◌==◌, [], ◌∷◌, pos, ltz,
  if◌then◌else◌, List,
}
use leads_engine.Outbound.{
  Mode, production, isolation, Op, dial, auto, retry, cancel, transfer, receipt, other_op, Kind,
  submission, ringing, connected, completed, intent, cancelled, human_transfer, other_kind, Status,
  blocked, simulated, provider_ack, recorded, Refusal, auto_closed, no_line, consent, budget,
  window, unreconciled, lookup_required, was_cancelled, human, simulation_unlabeled, binding, Input,
  Receipt, Outcome,
}

pub is_isolation : Mode → Bool
is_isolation isolation = true
is_isolation _ = false

pub is_production : Mode → Bool
is_production production = true
is_production _ = false

pub is_auto : Op → Bool
is_auto auto = true
is_auto _ = false

pub is_retry : Op → Bool
is_retry retry = true
is_retry _ = false

-- The texts of the constants, for the public event.
abbrev kind_text : Kind → String
kind_text submission = "dial_submission"
kind_text ringing = "ringing"
kind_text connected = "connected"
kind_text completed = "call_completed"
kind_text intent = "intent_suggestion"
kind_text cancelled = "cancel"
kind_text human_transfer = "human_transfer"
kind_text (other_kind s) = s

abbrev status_text : Status → String
status_text blocked = "blocked"
status_text simulated = "simulated"
status_text provider_ack = "provider_ack"
status_text recorded = "recorded"

-- `kind` is the empty text where there is no single receipt.
pub public_event_of : Input → String → Status → Bool → String
public_event_of i kind status simulation =
    "outbound task="
    ++ i.task_key
    ++ " kind="
    ++ (if kind == "" then "none" else kind)
    ++ " status="
    ++ status_text status
    ++ " mode="
    ++ (if simulation then "simulation" else "production")

pub consent_covers : Input → Bool
consent_covers i =
    if i.revoked || not i.explicit_consent || not i.marketing_allowed then false else true

pub blocked_by : Input → Bool → Option Refusal
unfolding consent_covers
blocked_by i automatic =
    if automatic && not i.production_auto
    then some auto_closed
    else if i.cancelled
    then some was_cancelled
    else if i.human_transfer
    then some human
    else if i.global_stop
    then some Refusal.global_stop
    else if i.unsubscribed
    then some Refusal.unsubscribed
    else if i.suppressed
    then some Refusal.suppressed
    else if i.rejected
    then some Refusal.rejected
    else if not i.inside_window
    then some window
    else if not i.budget_bound
    then some budget
    else if not (consent_covers i)
    then some consent
    else none

known_receipt : Kind → Bool
known_receipt submission = true
known_receipt ringing = true
known_receipt connected = true
known_receipt completed = true
known_receipt intent = true
known_receipt _ = false

pub receipt_status : Input → Bool → Status
receipt_status i simulation =
    if simulation
    then simulated
    else if ltz (pos 0) i.provider_http
        || i.claims_dial_success
        || i.claims_empty_number
        || i.claims_connected
    then provider_ack
    else recorded

new_receipt : Kind → Status → Bool → Receipt
new_receipt kind status simulation = record {
  kind = kind;
  status = status;
  simulation = simulation;
  real_connected = false;
}

refuse : Refusal → Outcome → Outcome
refuse r out = record out { refusal = some r }

accept : List Receipt → Outcome → Outcome
accept rs out = record out { ok = true; receipts = rs }

-- A retry of an attempt whose result is unknown waits for the original to be looked up and settled.
pub retry_refusal : Input → Option Refusal
unfolding is_retry
retry_refusal i =
    if is_retry i.op && i.result_unknown
    then if not i.original_looked_up
      then some lookup_required
      else if not i.original_reconciled
      then some unreconciled
      else none
    else none

pub line_refusal : Input → Option Refusal
unfolding is_isolation is_production
line_refusal i =
    if is_isolation i.mode && not i.simulation
    then some simulation_unlabeled
    else if is_production i.mode && not i.real_line
    then some no_line
    else none

pub decide_dial : Input → Outcome → Outcome
unfolding refuse accept new_receipt
decide_dial i out =
    if i.duplicate_task
    then record out { ok = true; replay = true; receipts = [] }
    else elim (blocked_by i (is_auto i.op)) [
      | some r ↦ refuse r out
      | none ↦ elim (retry_refusal i) [
        | some r ↦ refuse r out
        | none ↦ elim (line_refusal i) [
          | some r ↦ refuse r out
          | none ↦
              accept (new_receipt submission (receipt_status i out.simulation) out.simulation ∷ [])
                out
        ]
      ]
    ]

pub decide_receipt : Input → Outcome → Outcome
unfolding is_isolation refuse accept new_receipt
decide_receipt i out =
    if not (known_receipt i.receipt_kind) then refuse binding out else elim (blocked_by i false) [
      | some r ↦ record out {
        refusal = some r;
        receipts = new_receipt i.receipt_kind blocked out.simulation ∷ [];
      }
      | none ↦
          if is_isolation i.mode && not i.simulation
          then refuse simulation_unlabeled out
          else accept
              (new_receipt i.receipt_kind (receipt_status i out.simulation) out.simulation ∷ []) out
    ]

pub by_op : Op → Input → Outcome → Outcome
unfolding refuse accept new_receipt
by_op cancel i out = accept (new_receipt cancelled recorded out.simulation ∷ []) out
by_op transfer i out = accept (new_receipt human_transfer recorded out.simulation ∷ []) out
by_op receipt i out = decide_receipt i out
by_op dial i out = decide_dial i out
by_op auto i out = decide_dial i out
by_op retry i out = decide_dial i out
by_op (other_op _) i out = refuse binding out

pub apply_usage : Input → Outcome → Outcome
apply_usage i out =
    if i.real_line
    then elim i.usage_cents [
      | none ↦ record out { live_charge = 0; cost_known = false; cost_cents = none }
      | some cents ↦ record out { live_charge = 0; cost_known = true; cost_cents = some cents }
    ]
    else record out { live_charge = 0; cost_known = false; cost_cents = none }

pub with_event : Input → Outcome → Outcome
unfolding public_event_of
with_event i out = elim out.receipts [
  | r ∷ [] ↦ record out {
    public_event = public_event_of i (kind_text r.kind) r.status out.simulation;
  }
  | _ ↦ record out { public_event = public_event_of i "" blocked out.simulation }
]

pub start : Input → Outcome
unfolding is_isolation
start i = record {
  ok = false;
  refusal = none;
  dialed = false;
  dial_succeeded = false;
  real_connected = false;
  empty_number_detected = false;
  simulation = is_isolation i.mode || i.simulation;
  live_charge = 0;
  cost_known = false;
  cost_cents = none;
  replay = false;
  receipts = [];
  public_event = "";
}

pub decide : Input → Outcome
decide i =
    let out = start i in
    if i.task_key == "" || (not (is_production i.mode) && not (is_isolation i.mode))
    then record out {
      refusal = some binding;
      public_event = public_event_of i "" blocked out.simulation;
    }
    else apply_usage i (with_event i (by_op i.op i out))
