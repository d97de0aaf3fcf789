-- ===== src/Authz.antt =====
-- server/internal/authz/authz.go: who may do what to which record. A `*Member` or a `*AgentGrant`
-- that may be nil is an `Option`; an empty `Reason` is `none`.
pub mod Matrix
pub mod Masking
mod Examples
use leads_engine.Base.{
  ◌≡◌, Bool, true, false, ◌&&◌, ◌||◌, not, Option, none, some, String, ◌==◌, if◌then◌else◌,
}

-- A role or an action is a Go string: the last constructor is any text that is no constant.
pub data Role : Type 0 where
  owner sales agent : Role
  other_role : String → Role

pub data Action : Type 0 where
  create read_list read_record update : Action
  manage_members export_data delete merge : Action
  manage_forms manage_assign_pool manage_reception manage_contact_tags : Action
  other_action : String → Action

pub data Reason : Type 0 where
  not_member member_disabled cross_tenant agent_grant_missing forbidden not_found : Reason

pub record Member : Type 0 where
  pub id : String
  pub tenant_id : String
  pub principal_ref : String
  pub role : Role
  pub enabled : Bool

pub record AgentGrant : Type 0 where
  pub tenant_id : String
  pub principal_ref : String

pub record RecordScope : Type 0 where
  pub tenant_id : String
  pub assignee_member_id : String

pub record Decision : Type 0 where
  pub allowed : Bool
  pub reason : Option Reason
  pub mask_as_404 : Bool

valid : Role → Bool
valid (other_role _) = false
valid _ = true

is_owner : Role → Bool
is_owner owner = true
is_owner _ = false

is_agent : Role → Bool
is_agent agent = true
is_agent _ = false

allow : Decision
allow = record { allowed = true; reason = none; mask_as_404 = false }

deny : Reason → Decision
deny reason = record { allowed = false; reason = some reason; mask_as_404 = false }

grant_covers : Member → Option AgentGrant → Bool
grant_covers m none = false
grant_covers m (some g) = g.tenant_id == m.tenant_id && g.principal_ref == m.principal_ref

agent_has_grant : Member → Option AgentGrant → Bool
unfolding is_agent grant_covers
agent_has_grant m grant = if not (is_agent m.role) then true else grant_covers m grant

-- The three arms of the `switch` on the action.
owner_only : Member → Decision
unfolding allow deny is_owner
owner_only m = if not (is_owner m.role) then deny forbidden else allow

tenant_work : Member → Option AgentGrant → Decision
unfolding allow deny agent_has_grant
tenant_work m grant = if not (agent_has_grant m grant) then deny agent_grant_missing else allow

record_work : Member → Option AgentGrant → RecordScope → Decision
unfolding allow deny agent_has_grant is_owner
record_work m grant rec =
    if not (agent_has_grant m grant)
    then deny agent_grant_missing
    else if is_owner m.role
    then allow
    else if not (rec.assignee_member_id == "") && rec.assignee_member_id == m.id
    then allow
    else record { allowed = false; reason = some not_found; mask_as_404 = true }

by_action : Action → Member → Option AgentGrant → RecordScope → Decision
unfolding owner_only tenant_work record_work deny
by_action create m grant rec = tenant_work m grant
by_action read_list m grant rec = tenant_work m grant
by_action read_record m grant rec = record_work m grant rec
by_action update m grant rec = record_work m grant rec
by_action (other_action _) m grant rec = deny forbidden
by_action _ m grant rec = owner_only m

pub authorize : Option Member → Option AgentGrant → Action → RecordScope → Decision
unfolding valid deny by_action
authorize none grant action rec = deny not_member
authorize (some m) grant action rec =
    if not m.enabled
    then deny member_disabled
    else if not (valid m.role)
    then deny forbidden
    else if not (rec.tenant_id == "") && not (rec.tenant_id == m.tenant_id)
    then deny cross_tenant
    else by_action action m grant rec
