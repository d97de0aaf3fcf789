-- ===== src/Authz/Matrix.antt =====
-- The permission matrix, read by role instead of by action.
use leads_engine.Base.{◌≡◌, ◌≢◌, ◌⊎◌, ◌↔◌, true, Option, none, some, arith, eq_iff}
use leads_engine.Authz.{
  Role, owner, sales, agent, other_role, Action, create, read_list, read_record, update,
  other_action, Member, AgentGrant, RecordScope, authorize,
}

abbrev pub IsKnown : Action → Type 0
IsKnown (other_action _) = ⊥
IsKnown _ = Unit

-- What a member who is not the owner may do: work on the tenant's lists, and on own records.
abbrev pub IsDaily : Member → RecordScope → Action → Type 0
IsDaily m rec create = Unit
IsDaily m rec read_list = Unit
IsDaily m rec read_record = (rec.assignee_member_id ≡ m.id) × (m.id ≢ "")
IsDaily m rec update = (rec.assignee_member_id ≡ m.id) × (m.id ≢ "")
IsDaily m rec _ = ⊥

-- The grant is for the agent's own tenant and principal.
abbrev pub HasOwnGrant : Member → Option AgentGrant → Type 0
HasOwnGrant m grant =
    (g : AgentGrant) × (grant ≡ some g)
    × (g.tenant_id ≡ m.tenant_id)
    × (g.principal_ref ≡ m.principal_ref)

abbrev pub RoleMay : Role → Member → Option AgentGrant → RecordScope → Action → Type 0
RoleMay owner m grant rec a = IsKnown a
RoleMay sales m grant rec a = IsDaily m rec a
RoleMay agent m grant rec a = HasOwnGrant m grant × IsDaily m rec a
RoleMay (other_role _) m grant rec a = ⊥

-- A member is let through exactly when enabled, on a record of no tenant or of the own one, and
-- the role's row of the matrix has the action.
pub authorize-allowed_iff :
    (m : Member) (grant : Option AgentGrant) (a : Action) (rec : RecordScope)
    → ((authorize (some m) grant a rec).allowed ≡ true) ↔ (
        (m.enabled ≡ true)
        × ((rec.tenant_id ≡ "") ⊎ (rec.tenant_id ≡ m.tenant_id))
        × RoleMay m.role m grant rec a)
unfolding authorize
authorize-allowed_iff m none a rec =
    let no_tenant = eq_iff rec.tenant_id "" in
    let same_tenant = eq_iff rec.tenant_id m.tenant_id in
    let no_assignee = eq_iff rec.assignee_member_id "" in
    let own = eq_iff rec.assignee_member_id m.id in (λ h. ground arith, λ h. ground arith)
authorize-allowed_iff m (some g) a rec =
    let no_tenant = eq_iff rec.tenant_id "" in
    let same_tenant = eq_iff rec.tenant_id m.tenant_id in
    let no_assignee = eq_iff rec.assignee_member_id "" in
    let own = eq_iff rec.assignee_member_id m.id in
    let grant_tenant = eq_iff g.tenant_id m.tenant_id in
    let grant_principal = eq_iff g.principal_ref m.principal_ref in
    (λ h. ground arith, λ h. ground arith)
