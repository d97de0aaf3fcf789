-- ===== src/Subscription.antt =====
-- server/internal/subscription/decision.go: what a plan allows and what an AI action costs.
pub mod Gate
pub mod Examples
use leads_engine.Base.{
  ℕ, ℤ, pos, ltz, Bool, true, false, ◌&&◌, ◌||◌, not, String, ◌==◌, List, [], ◌∷◌, elem,
  if◌then◌else◌,
}

pub record ContactIdentity : Type 0 where
  pub phone : String
  pub email : String
  pub known_principal : String
  pub known_phone : String
  pub known_email : String

pub record SideEffect : Type 0 where
  pub register : Bool
  pub bind : Bool
  pub merge : Bool
  pub principals : ℕ
  pub wallets : ℕ

unfoldable pub platform_side_effect : ContactIdentity → SideEffect
platform_side_effect contact = record {
  register = false;
  bind = false;
  merge = false;
  principals = 0;
  wallets = 0;
}

unfoldable pub crm_opened : String → ℤ → Bool
crm_opened plan_status balance = plan_status == "active"

pub record History : Type 0 where
  pub readable : Bool
  pub deleted : Bool
  pub reported_lost : Bool

unfoldable pub history_after_expiry : String → History
history_after_expiry kind = record {
  readable = kind == "contact" || kind == "follow_up" || kind == "opportunity";
  deleted = false;
  reported_lost = false;
}

unfoldable pub advanced_allowed : String → String → Bool
advanced_allowed plan_status feature =
    if feature == "auto_assign"
      || feature == "analytics"
      || feature == "advanced_channel"
      || feature == "extra_form"
    then plan_status == "active"
    else false

pub record Charge : Type 0 where
  pub billable : Bool
  pub cents : ℤ
  pub meter : String

abbrev metered : ℕ → Charge
metered cents = record { billable = true; cents = pos cents; meter = "ai_usage" }

unfoldable pub price : String → Charge
price action =
    if action == "ai_score"
    then metered 100
    else if action == "ai_summary"
    then metered 80
    else if action == "ai_reception"
    then metered 200
    else if action == "ai_outbound"
    then metered 500
    else if action == "ai_message"
    then metered 50
    else record { billable = false; cents = pos 0; meter = "" }

unfoldable pub auto_execute : String → ℤ → Bool
auto_execute action balance = false

unfoldable pub payer_allowed : String → String → String → String → Bool
payer_allowed kind payer_account org_account authorized_account =
    if payer_account == "" || org_account == ""
    then false
    else if kind == "organization"
    then payer_account == org_account
    else if kind == "authorized"
    then not (authorized_account == "")
      && payer_account == authorized_account
      && not (payer_account == org_account)
    else false

pub record AiInput : Type 0 where
  pub action : String
  pub payer_kind : String
  pub payer_account_id : String
  pub org_account_id : String
  pub authorized_account : String
  pub balance_cents : ℤ
  pub quote_revision : String
  pub seen_revision : String
  pub explicit_confirm : Bool
  pub already_committed : Bool
  pub return_to : String

pub data Reason : Type 0 where
  not_ai_usage payer_not_authorized already_committed quote_stale : Reason
  confirmation_required insufficient_balance quoted : Reason

pub record Decision : Type 0 where
  pub execute : Bool
  pub reason : Reason
  pub billing_center : String
  pub return_to : String
  pub reread : Bool
  pub duplicate : Bool
  pub live_charge : ℤ

abbrev pub declined : Reason → Decision
declined why = record {
  execute = false;
  reason = why;
  billing_center = "";
  return_to = "";
  reread = false;
  duplicate = false;
  live_charge = pos 0;
}

unfoldable pub payer_of : AiInput → Bool
payer_of i = payer_allowed i.payer_kind i.payer_account_id i.org_account_id i.authorized_account

unfoldable pub decide_ai : AiInput → Decision
unfolding auto_execute payer_of
decide_ai i =
    if not (price i.action).billable
    then declined not_ai_usage
    else if not (payer_of i)
    then declined payer_not_authorized
    else if i.already_committed
    then record (declined already_committed) { duplicate = true }
    else if i.seen_revision == "" || not (i.seen_revision == i.quote_revision)
    then record (declined quote_stale) { reread = true; return_to = i.return_to }
    else if not i.explicit_confirm || auto_execute i.action i.balance_cents
    then record (declined confirmation_required) { return_to = i.return_to }
    else if ltz i.balance_cents (price i.action).cents
    then record (declined insufficient_balance) {
      billing_center = "billing_center";
      return_to = i.return_to;
    }
    else record (declined quoted) { execute = true }

unfoldable pub visitor_lead_allowed : Bool → String → Bool
visitor_lead_allowed authorized principal = authorized

pub record Ledger : Type 0 where
  pub crm_subscription_cents : ℤ
  pub ai_usage_cents : ℤ
  pub merchant_deal_cents : ℤ
  pub wallet_cents : ℤ
  pub merchant_revenue_in_wallet : Bool

unfoldable pub ledgers : ℤ → ℤ → ℤ → ℤ → Ledger
ledgers crm ai deal wallet = record {
  crm_subscription_cents = crm;
  ai_usage_cents = ai;
  merchant_deal_cents = deal;
  wallet_cents = wallet;
  merchant_revenue_in_wallet = false;
}
