-- ===== src/SopReach/Decide/Examples.antt =====
-- Tests of the decision, and its theorems at a concrete input.
use leads_engine.Base.{◌≡◌, ◌↔◌, refl, true, false, some, pos, [], ◌∷◌, elem}
use leads_engine.SopReach.{
  remind_draft_confirm, confirm, auto, retry, Input, unattended_closed, original_unreconciled,
}
use leads_engine.SopReach.Decide.{
  decide, open_level, send, gate, bind, stop_refusal, consent_covers, retry_refusal,
}
use leads_engine.SopReach.Decide.Sends.{IsBound, IsOpen, OpAllows, decide-send_ok_iff}

-- What a test computes with.
unfoldable pub decisions : Unit {0}
unfolding decide open_level send gate bind stop_refusal consent_covers retry_refusal elem
decisions = tt

abbrev pub follow_up : Input
follow_up = record {
  op = confirm;
  level = remind_draft_confirm;
  explicit_unattended = false;
  balance_cents = pos 0;
  ai_score = pos 10;
  channel = "sms";
  capability = true;
  live_channel = false;
  recipient = "rcp_1";
  purpose = "follow_up";
  consent_purpose = "follow_up";
  consent_channels = "email" ∷ "sms" ∷ [];
  consultation_only = false;
  marketing_allowed = false;
  is_revoked = false;
  tenant_id = "tnt_1";
  action_tenant_id = "tnt_1";
  content_version = pos 1;
  operator_id = "mem_1";
  budget_bound = true;
  is_unsubscribed = false;
  is_rate_limited = false;
  inside_window = true;
  is_human_takeover = false;
  is_global_stop = false;
  is_customer_stop = false;
  is_rejected = false;
  attempt = pos 1;
  max_attempts = pos 3;
  timed_out = false;
  is_reconciled = false;
}

confirmed : (decide follow_up).ok ≡ true
unfolding decisions
confirmed = refl

auto_closed :
    (decide (record follow_up { op = auto; balance_cents = pos 100000 })).refusal
    ≡ some unattended_closed
unfolding decisions
auto_closed = refl

blind_retry :
    (decide (record follow_up { op = retry; timed_out = true })).refusal
    ≡ some original_unreconciled
unfolding decisions
blind_retry = refl

decide-send_ok_iff_example : ((decide follow_up).ok ≡ true) ↔ (
    IsBound follow_up
    × (follow_up.capability ≡ true)
    × IsOpen follow_up
    × OpAllows follow_up confirm)
decide-send_ok_iff_example = decide-send_ok_iff follow_up tt
