-- ===== src/CraftHandoff.antt =====
-- server/internal/crafthandoff/service.go: the types, and the state of the in-memory service. A
-- map is a `Dict`, an error an `Error`, `*int64` an `Option ℤ`. A nil service is not modelled.
pub mod Material
pub mod Service
use leads_engine.Base.{ℕ, ℤ, Bool, true, false, Option, String, List, Dict, vacant}

pub data Error : Type 0 where
  invalid nothing_selected unauthorized_fact forbidden_fact unauthorized_portrait : Error
  cross_tenant unknown_target payer_required permission_revoked target_failed : Error
  empty_draft draft_not_found : Error

pub record Fact : Type 0 where
  pub key : String
  pub value : String
  pub selected : Bool
  pub authorized : Bool

pub record SaveRequest : Type 0 where
  pub tenant_id : String
  pub lead_id : String
  pub version : ℤ
  pub facts : List Fact

pub record Draft : Type 0 where
  pub tenant_id : String
  pub lead_id : String
  pub version : ℤ
  pub body : String
  pub facts : List Fact
  pub sent : Bool
  pub published : Bool
  pub marketing_license : Bool
  pub reply_bot_started : Bool
  pub editable_by_hand : Bool
  pub model_stamp : String
  pub status : String

pub record Input : Type 0 where
  pub tenant_id : String
  pub lead_id : String
  pub version : ℤ
  pub target : String
  pub payer_ref : String
  pub phone : String
  pub email : String
  pub crm_profile : String
  pub sales_notes : String
  pub portrait : String
  pub portrait_authorized : Bool
  pub cost_minor : Option ℤ
  pub target_failed : Bool

pub record Payload : Type 0 where
  pub source_lead_id : String
  pub version : ℤ
  pub payer_ref : String

-- `Known` and `Minor` in one: an unknown cost is `none`.
abbrev pub Cost : Type 0
Cost = Option ℤ

pub record Handed : Type 0 where
  pub id : String
  pub tenant_id : String
  pub lead_id : String
  pub version : ℤ
  pub target : String
  pub payload : Payload
  pub fixture_ref : String
  pub fixture : Bool
  pub live_session : Bool
  pub project_count : ℕ
  pub generation_ok : Bool
  pub sent : Bool
  pub published : Bool
  pub marketing_license : Bool
  pub model_stamp : String
  pub provider_calls : ℕ
  pub charge_writes : ℕ
  pub billing_passed : Bool
  pub cost : Cost
  pub service_provider : String
  pub billing : String
  pub production : String
  pub human_adoption : String
  pub status : String

pub record State : Type 0 where
  pub leads : Dict String
  pub drafts : Dict Draft
  pub revoked : Dict Bool
  pub handoffs : Dict Handed
  pub provider_calls : ℕ
  pub charge_writes : ℕ
  pub reply_bots : ℕ

abbrev pub new_service : State
new_service = record {
  leads = vacant;
  drafts = vacant;
  revoked = vacant;
  handoffs = vacant;
  provider_calls = 0;
  charge_writes = 0;
  reply_bots = 0;
}
