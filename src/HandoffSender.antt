-- ===== src/HandoffSender.antt =====
-- server/internal/handoffsender and server/internal/store/opportunity_handoff.go: the types of the
-- hand-off of opportunities to the receiver's product.
pub mod Input
pub mod Receiver
pub mod Table
pub mod Service
use leads_engine.Base.{ℕ, Bool, Option, String}

-- `LocalStatus`; the migration allows no other text.
pub data Status : Type 0 where
  confirmed delivered delivery_failed revoked : Status

-- `OpportunityHandoff`, one row of the table.
pub record Snapshot : Type 0 where
  pub id : String
  pub tenant_id : String
  pub opportunity_id : String
  pub source_version : ℕ
  pub fingerprint : String
  pub handoff_id : String
  pub doc_json : String
  pub doc_sha256 : String
  pub source_revision : String
  pub principal_id : String
  pub actor_issuer : String
  pub actor_subject : String
  pub target_app : String
  pub return_target_id : String
  pub local_status : Status
  pub draft_ref : String
  pub target_status : String
  pub target_dirty : Bool
  pub target_revoked : Bool
  pub last_http_status : Option ℕ
  pub last_error : String
  pub confirmed_by : String
  pub confirmed_at : String
  pub delivered_at : Option String
  pub revoked_at : Option String
  pub updated_at : String

pub record DeliveryResult : Type 0 where
  pub handoff_id : String
  pub draft_ref : String
  pub status : String
  pub duplicate : Bool
  pub dirty : Bool
  pub is_revoked : Bool

pub record TargetProjection : Type 0 where
  pub handoff_id : String
  pub draft_ref : String
  pub status : String
  pub dirty : Bool
  pub is_revoked : Bool

-- What an HTTP request of the receiver ends in: no answer, with the reason, or a status and a body,
-- which may hold what the caller decodes.
pub data Reply {ℓ} (A : Type ℓ) : Type ℓ where
  no_answer : String → Reply A
  answered : ℕ → Option A → String → Reply A

-- The errors of the delivery client, as `errors.Is` and `errors.As` tell them apart.
pub data Failure : Type 0 where
  receiver_conflict receiver_rejected : Failure
  receiver_error : String → Failure
  transport : String → Failure

pub record Config : Type 0 where
  pub target_app_id : String
  pub tenant_scope : String
  pub intake_url : String
  pub token : String
