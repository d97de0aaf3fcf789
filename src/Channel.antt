-- ===== src/Channel.antt =====
-- server/internal/channelix/admit.go and server/internal/store/channel_interaction.go: comments and
-- direct messages of authorized channels. Admit is the decision, Rows the tables and their
-- statements, Ingest the steps that change them.
pub mod Admit
pub mod Rows
pub mod Ingest
pub mod Revoked
pub mod Invariant
pub mod Replay
pub mod Examples
use leads_engine.Base.{Bool, Option, String, List, ℤ}

pub record Grant : Type 0 where
  pub tenant_id : String
  pub provider : String
  pub account_id : String
  pub app_id : String
  pub subject_ns : String
  pub message_ns : String
  pub post_ns : String
  pub capabilities : List String
  pub is_revoked : Bool

pub record Event : Type 0 where
  pub target_tenant_id : String
  pub provider : String
  pub account_id : String
  pub app_id : String
  pub subject_ns : String
  pub message_ns : String
  pub post_ns : String
  pub event_id : String
  pub kind : String
  pub subject_id : String
  pub nickname : String
  pub phone : String
  pub text : String
  pub explicit_intent : Bool
  pub purpose : String
  pub is_retracted : Bool
  pub score : ℤ
  pub phone_marketing_consent : Bool
  pub sms_marketing_consent : Bool

-- `Stored`, the row that is kept for the event.
pub record Stored : Type 0 where
  pub interaction_id : String
  pub candidate_id : String
  pub text_sha256 : String
  pub is_retracted : Bool

pub record Input : Type 0 where
  pub grant : Grant
  pub event : Event
  pub prior : Option Stored
  pub floor : String
  pub want_reply : Bool
  pub human_processed : Bool

pub data Refusal : Type 0 where
  capability_missing forged_tenant forged_source speaker_conflict permission_revoked : Refusal

-- `Result`, the decision.
pub record Decision : Type 0 where
  pub is_ok : Bool
  pub refusal : Option Refusal
  pub dedup_key : String
  pub interaction_id : String
  pub candidate_id : String
  pub text_sha256 : String
  pub create_interaction : Bool
  pub update : Bool
  pub create_candidate : Bool
  pub idempotent : Bool
  pub retract : Bool
  pub withdraw_candidate : Bool
  pub channel_contact : Bool
  pub phone_marketing : Bool
  pub sms_marketing : Bool
  pub auto_reach : Bool
  pub reply_allowed : Bool
  pub reply_refusal : Option Refusal
  pub delivered : Bool
  pub human_processed : Bool
  pub verification : String
  pub live_providers : List String
