-- ===== src/SopReach/Sandbox.antt =====
-- server/internal/sopreach/sandbox.go: the state of the test scheduler. A map from ids is a `Dict`;
-- a pointer into a map is the id under which the record stands. The mutex makes every method one
-- step. `s.n` counts up from 0 and is taken to stay below 2^63.
pub mod Steps
pub mod Ledger
pub mod Fresh
pub mod Once
pub mod Permission
pub mod Sticky
pub mod Replay
mod Examples
use leads_engine.Base.{
  ℕ, ℤ, pos, Bool, true, false, Option, none, some, String, List, [], Dict, vacant,
}
use leads_engine.SopReach.{Kind, Status, Refusal, Input, Record}

-- The decision snapshot `Input` and the campaign that the action is for.
pub record Reach : Type 0 where
  pub input : Input
  pub contact_id : String
  pub campaign_id : String
  pub consent_campaign_id : String
  pub enrolled_campaign_id : String
  pub body : String
  pub role : String
  pub reminder_id : String
  pub draft_id : String

pub record Evidence : Type 0 where
  pub service_provider : String
  pub billing : String
  pub production : String
  pub human_adoption : String
  pub channel_stamp : String
  pub charge_writes : ℕ
  pub billing_passed : Bool
  pub provider_calls : ℕ

-- An empty kind, status, submission or delivery is `none`.
pub record Outcome : Type 0 where
  pub ok : Bool
  pub refusal : Option Refusal
  pub id : String
  pub kind : Option Kind
  pub status : Option Status
  pub submission : Option Status
  pub delivery : Option Status
  pub delivered : Bool
  pub replied : Bool
  pub automatic_sent : Bool
  pub created_send : Bool
  pub duplicate : Bool
  pub found_original : Bool
  pub stopped : Bool
  pub sent_body : String
  pub stamp : String
  pub records : List Record
  pub evidence : Evidence

pub record Callback : Type 0 where
  pub callback_id : String
  pub message_id : String
  pub tenant_id : String
  pub action_tenant_id : String
  pub http_status : ℤ

pub record StoredReach : Type 0 where
  pub id : String
  pub reach : Reach

pub record StoredDraft : Type 0 where
  pub id : String
  pub reminder_id : String
  pub reach : Reach
  pub attempted : Bool
  pub result : Outcome

pub record StoredAuto : Type 0 where
  pub id : String
  pub reach : Reach
  pub stopped : Bool
  pub stop_reason : Option Refusal
  pub attempted : Bool
  pub result : Outcome

pub record OriginalMessage : Type 0 where
  pub id : String
  pub tenant_id : String
  pub submission : Status
  pub delivery : Status
  pub callbacks : ℕ

pub record FixtureMessage : Type 0 where
  pub message_id : String
  pub tenant_id : String
  pub contact_id : String
  pub campaign_id : String
  pub channel : String
  pub purpose : String
  pub content_version : ℤ
  pub body : String

pub record Sandbox : Type 0 where
  pub fixture_url : String
  pub automatic : Bool
  pub n : ℕ
  pub charge_writes : ℕ
  pub billing_passed : Bool
  pub provider_calls : ℕ
  pub reminders : Dict StoredReach
  pub drafts : Dict StoredDraft
  pub actions : Dict StoredAuto
  pub messages : Dict OriginalMessage
  pub callbacks : Dict Outcome

abbrev pub new_sandbox : String → Sandbox
new_sandbox url = record {
  fixture_url = url;
  automatic = false;
  n = 0;
  charge_writes = 0;
  billing_passed = false;
  provider_calls = 0;
  reminders = vacant;
  drafts = vacant;
  actions = vacant;
  messages = vacant;
  callbacks = vacant;
}

abbrev pub no_evidence : Evidence
no_evidence = record {
  service_provider = "";
  billing = "";
  production = "";
  human_adoption = "";
  channel_stamp = "";
  charge_writes = 0;
  billing_passed = false;
  provider_calls = 0;
}

-- `Outcome{}`
abbrev pub blank_outcome : Outcome
blank_outcome = record {
  ok = false;
  refusal = none;
  id = "";
  kind = none;
  status = none;
  submission = none;
  delivery = none;
  delivered = false;
  replied = false;
  automatic_sent = false;
  created_send = false;
  duplicate = false;
  found_original = false;
  stopped = false;
  sent_body = "";
  stamp = "";
  records = [];
  evidence = no_evidence;
}
