-- ===== src/CrmTenant.antt =====
-- server/internal/crmtenant/isolate.go: which tenant a CRM row belongs to, and what an export holds.
pub mod Isolation
pub mod Examples
use leads_engine.Base.{
  ℤ, pos, ltz, Bool, true, false, ◌&&◌, ◌||◌, not, String, ◌==◌, List, [], ◌∷◌, elem, if◌then◌else◌,
  Option, none, some, Dict, vacant, slot, lookup, Result, ok, err, trim_space,
}

pub data Error : Type 0 where
  tenant_required cross_tenant : Error

unfoldable pub authority_tenant : String → String → String → Result Error String
authority_tenant member body brand =
    if member == ""
    then err tenant_required
    else if not (body == "") && not (body == member) && not (body == brand)
    then err cross_tenant
    else ok member

-- The checks on the tenant that was chosen.
unfoldable pub chosen_tenant : String → String → String → String → Result Error String
chosen_tenant member source campaign chosen =
    if not (chosen == member)
    then err cross_tenant
    else if not (source == "") && chosen == source && not (chosen == member)
    then err cross_tenant
    else if not (campaign == "") && chosen == campaign && not (chosen == member)
    then err cross_tenant
    else ok member

unfoldable pub target_tenant : String → String → String → String → String → Result Error String
target_tenant member body brand source campaign =
    elim (authority_tenant (trim_space member) (trim_space body) (trim_space brand)) [
      | err e ↦ err e
      | ok chosen ↦
          chosen_tenant (trim_space member) (trim_space source) (trim_space campaign) chosen
    ]

pub record PhonePlace : Type 0 where
  pub tenant_id : String
  pub brand_id : String
  pub phone : String

unfoldable pub allow_contact_merge : PhonePlace → PhonePlace → Bool
allow_contact_merge a b =
    if a.tenant_id == "" || not (a.tenant_id == b.tenant_id)
    then false
    else if not (a.brand_id == "") && not (b.brand_id == "") && not (a.brand_id == b.brand_id)
    then false
    else true

-- A row of an export; a missing column reads as the empty text.
abbrev pub Row : Type 0
Row = Dict String

unfoldable pub column : String → Row → String
column name row = elim (lookup name row) [ none ↦ "" | some v ↦ v ]

pub record ExportBundle : Type 0 where
  pub tenant_id : String
  pub contacts : List Row
  pub extra : Dict String

abbrev pub secret_keys : List String
secret_keys =
    "purchase_price_cents" ∷ "procurement_price" ∷ "internal_token" ∷ "session_token"
    ∷ "identity_token" ∷ []

unfoldable pub rows_of : String → List Row → List Row
rows_of tenant [] = []
rows_of tenant (row ∷ rows) =
    let rest = rows_of tenant rows in if column "tenant_id" row == tenant then row ∷ rest else rest

-- The loop over the map copies each entry that is not secret; the order does not show in a map.
unfoldable pub without_secrets : Dict String → Dict String
without_secrets vacant = vacant
without_secrets (slot key value rest) =
    let others = without_secrets rest in
    if elem key secret_keys then others else slot key value others

unfoldable pub sanitize_export : ExportBundle → ExportBundle
sanitize_export b = record {
  tenant_id = b.tenant_id;
  contacts = rows_of b.tenant_id b.contacts;
  extra = without_secrets b.extra;
}

pub record ExportJob : Type 0 where
  pub tenant_id : String
  pub requester : String
  pub expired : Bool

unfoldable pub download_allowed : ExportJob → String → String → Bool → Bool
download_allowed job tenant principal confirmed =
    if not confirmed || job.expired
    then false
    else job.tenant_id == tenant && job.requester == principal

unfoldable pub new_paid_ai_allowed : String → Bool → ℤ → Bool
new_paid_ai_allowed plan_status quota_known quota =
    if plan_status == "downgraded"
    then false
    else if quota_known && not (ltz (pos 0) quota)
    then false
    else true
