-- ===== src/Subscription/Examples.antt =====
-- Quotes of AI actions.
use leads_engine.Base.{pos, ◌≡◌, ◌↔◌, true, false, refl}
use leads_engine.Subscription.{AiInput, decide_ai, price, payer_of, payer_allowed, auto_execute}
use leads_engine.Subscription.Gate.{MayRun, decide_ai-execute_iff}

abbrev confirmed : AiInput
confirmed = record {
  action = "ai_summary";
  payer_kind = "authorized";
  payer_account_id = "acc_2";
  org_account_id = "acc_1";
  authorized_account = "acc_2";
  balance_cents = pos 80;
  quote_revision = "rev_1";
  seen_revision = "rev_1";
  explicit_confirm = true;
  already_committed = false;
  return_to = "/leads";
}

runs : (decide_ai confirmed).execute ≡ true
unfolding decide_ai price payer_of payer_allowed auto_execute
runs = refl

abbrev poor : AiInput
poor = record confirmed { balance_cents = pos 79 }

stops : (decide_ai poor).billing_center ≡ "billing_center"
unfolding decide_ai price payer_of payer_allowed auto_execute
stops = refl

decide_ai-execute_iff_example : ((decide_ai confirmed).execute ≡ true) ↔ MayRun confirmed
decide_ai-execute_iff_example = decide_ai-execute_iff confirmed
