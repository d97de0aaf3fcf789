-- ===== src/Outbound/Decide/Examples.antt =====
-- Tests of `decide`, and its theorems at concrete inputs.
use leads_engine.Base.{◌≡◌, ◌≢◌, ◌↔◌, refl, true, false, some, pos}
use leads_engine.Outbound.{isolation, dial, retry, submission, Input, lookup_required}
use leads_engine.Outbound.Decide.{
  decide, start, by_op, decide_dial, blocked_by, is_auto, is_retry, is_production, is_isolation,
  retry_refusal, line_refusal, apply_usage, with_event, public_event_of, receipt_status,
  consent_covers,
}
use leads_engine.Outbound.Decide.Gate.{MayContact, OpReady, LineReady, decide-dial_ok_iff}

abbrev drill : Input
drill = record {
  op = dial;
  mode = isolation;
  production_auto = false;
  real_line = false;
  simulation = true;
  explicit_consent = true;
  marketing_allowed = true;
  revoked = false;
  public_source = true;
  phone_valid = true;
  ai_score = pos 99;
  budget_bound = true;
  unsubscribed = false;
  suppressed = false;
  inside_window = true;
  global_stop = false;
  rejected = false;
  campaign_id = "cmp_1";
  task_key = "task_1";
  duplicate_task = false;
  cancelled = false;
  human_transfer = false;
  original_looked_up = false;
  original_reconciled = false;
  result_unknown = false;
  receipt_kind = submission;
  provider_http = pos 200;
  claims_dial_success = true;
  claims_empty_number = false;
  claims_connected = true;
  phone = "13800000000";
  recording = "";
  transcript = "";
  usage_cents = some (pos 40);
}

drill_event :
    (decide drill).public_event
    ≡ "outbound task=task_1 kind=dial_submission status=simulated mode=simulation"
unfolding decide start by_op decide_dial blocked_by consent_covers is_auto retry_refusal is_retry
    line_refusal is_production is_isolation apply_usage with_event public_event_of receipt_status
drill_event = refl

blind_retry :
    (decide (record drill { op = retry; result_unknown = true })).refusal ≡ some lookup_required
unfolding decide start by_op decide_dial blocked_by consent_covers is_auto retry_refusal is_retry
    line_refusal is_production is_isolation apply_usage with_event public_event_of receipt_status
blind_retry = refl

decide-dial_ok_iff_example :
    ((decide drill).ok ≡ true)
    ↔ ((drill.task_key ≢ "") × MayContact drill × OpReady drill dial × LineReady drill isolation)
decide-dial_ok_iff_example = decide-dial_ok_iff drill tt refl
