-- ===== src/Outbound.antt =====
-- server/internal/outbound/decide.go: the gate that is checked before an AI call. A string that is
-- compared with constants only is a data type of them, whose last constructor is any other text;
-- an empty refusal is `none`; `*int` is `Option ℤ`. `Phone`, `Recording`, `Transcript`, `AIScore`,
-- `PublicSource`, `PhoneValid` and `CampaignID` are kept, although no branch reads them.
pub mod Decide
use leads_engine.Base.{ℕ, ℤ, Bool, Option, String, List}

pub data Mode : Type 0 where
  production isolation : Mode
  other_mode : String → Mode

pub data Op : Type 0 where
  dial auto retry cancel transfer receipt : Op
  other_op : String → Op

pub data Kind : Type 0 where
  submission ringing connected completed intent cancelled human_transfer : Kind
  other_kind : String → Kind

pub data Status : Type 0 where
  blocked simulated provider_ack recorded : Status

pub data Refusal : Type 0 where
  auto_closed no_line consent budget unsubscribed suppressed window global_stop : Refusal
  rejected unreconciled lookup_required was_cancelled human simulation_unlabeled binding : Refusal

pub record Input : Type 0 where
  pub op : Op
  pub mode : Mode
  pub production_auto : Bool
  pub real_line : Bool
  pub simulation : Bool
  pub explicit_consent : Bool
  pub marketing_allowed : Bool
  pub revoked : Bool
  pub public_source : Bool
  pub phone_valid : Bool
  pub ai_score : ℤ
  pub budget_bound : Bool
  pub unsubscribed : Bool
  pub suppressed : Bool
  pub inside_window : Bool
  pub global_stop : Bool
  pub rejected : Bool
  pub campaign_id : String
  pub task_key : String
  pub duplicate_task : Bool
  pub cancelled : Bool
  pub human_transfer : Bool
  pub original_looked_up : Bool
  pub original_reconciled : Bool
  pub result_unknown : Bool
  pub receipt_kind : Kind
  pub provider_http : ℤ
  pub claims_dial_success : Bool
  pub claims_empty_number : Bool
  pub claims_connected : Bool
  pub phone : String
  pub recording : String
  pub transcript : String
  pub usage_cents : Option ℤ

pub record Receipt : Type 0 where
  pub kind : Kind
  pub status : Status
  pub simulation : Bool
  pub real_connected : Bool

pub record Outcome : Type 0 where
  pub ok : Bool
  pub refusal : Option Refusal
  pub dialed : Bool
  pub dial_succeeded : Bool
  pub real_connected : Bool
  pub empty_number_detected : Bool
  pub simulation : Bool
  pub live_charge : ℕ
  pub cost_known : Bool
  pub cost_cents : Option ℤ
  pub replay : Bool
  pub receipts : List Receipt
  pub public_event : String
