-- ===== src/SopReach.antt =====
-- server/internal/sopreach: the types of decide.go and sandbox.go that both share. An empty refusal is `none`. `Op`
-- is a data type of the constants and any other text; channels and purposes are compared with one
-- another and stay texts.
pub mod Decide
pub mod Sandbox
use leads_engine.Base.{ℤ, Bool, Option, String, List}

pub data Op : Type 0 where
  remind draft confirm retry auto user_reply : Op
  other_op : String → Op

pub data Level : Type 0 where
  remind_draft_confirm unattended : Level
  other_level : String → Level

pub data Kind : Type 0 where
  internal_reminder pending_draft channel_submission channel_delivery reply_of_user : Kind

pub data Status : Type 0 where
  recorded pending_send undelivered blocked submission_accepted unknown queued : Status

pub data Refusal : Type 0 where
  unattended_closed human_takeover unsubscribed rejected_schedule original_unreconciled : Refusal
  attempt_exhausted consent_scope incomplete_binding revoked rate_limited outside_window : Refusal
  global_stop customer_stop capability_missing tenant_mismatch : Refusal
  automatic_send_off test_role_required confirm_chain_required campaign_not_permission : Refusal
  fixture_not_accepted original_missing : Refusal

pub record Input : Type 0 where
  pub op : Op
  pub level : Level
  pub explicit_unattended : Bool
  pub balance_cents : ℤ
  pub ai_score : ℤ
  pub channel : String
  pub capability : Bool
  pub live_channel : Bool
  pub recipient : String
  pub purpose : String
  pub consent_purpose : String
  pub consent_channels : List String
  pub consultation_only : Bool
  pub marketing_allowed : Bool
  pub is_revoked : Bool
  pub tenant_id : String
  pub action_tenant_id : String
  pub content_version : ℤ
  pub operator_id : String
  pub budget_bound : Bool
  pub is_unsubscribed : Bool
  pub is_rate_limited : Bool
  pub inside_window : Bool
  pub is_human_takeover : Bool
  pub is_global_stop : Bool
  pub is_customer_stop : Bool
  pub is_rejected : Bool
  pub attempt : ℤ
  pub max_attempts : ℤ
  pub timed_out : Bool
  pub is_reconciled : Bool

pub record Record : Type 0 where
  pub kind : Kind
  pub status : Status

pub record Verdict : Type 0 where
  pub ok : Bool
  pub refusal : Option Refusal
  pub is_unattended : Bool
  pub delivered : Bool
  pub live_charge : ℤ
  pub records : List Record
