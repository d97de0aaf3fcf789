-- ===== src/CrmTenant/Examples.antt =====
-- A request with a brand in its tenant field, and an export with a secret.
use leads_engine.Base.{
  ◌≡◌, ◌≢◌, ◌↔◌, ◌⊎◌, [], ◌∷◌, elem, All, vacant, slot, lookup, none, if◌then◌else◌, ok, trim_space,
}
use leads_engine.CrmTenant.{target_tenant, column, Row, ExportBundle, secret_keys, sanitize_export}
use leads_engine.CrmTenant.Isolation.{OwnPart, target_tenant_iff, sanitize_export-IsSafe}

target_tenant_iff_example :
    (target_tenant " tnt_1" "brand_1" "brand_1 " "tnt_2" "" ≡ ok "tnt_1") ↔ (
      ("tnt_1" ≡ trim_space " tnt_1")
      × (trim_space " tnt_1" ≢ "")
      × ((trim_space "brand_1" ≡ "")
          ⊎ (trim_space "brand_1" ≡ trim_space " tnt_1")
          ⊎ (trim_space "brand_1" ≡ trim_space "brand_1 ")))
target_tenant_iff_example = target_tenant_iff " tnt_1" "brand_1" "brand_1 " "tnt_2" "" "tnt_1"

abbrev other_row : Row
other_row = slot "tenant_id" "tnt_2" vacant

abbrev own_row : Row
own_row = slot "tenant_id" "tnt_1" (slot "name" "Ann" vacant)

abbrev export : ExportBundle
export = record {
  tenant_id = "tnt_1";
  contacts = other_row ∷ own_row ∷ [];
  extra = slot "session_token" "s" (slot "note" "n" vacant);
}

sanitize_export-IsSafe_example :
    All (λ r. column "tenant_id" r ≡ "tnt_1") (sanitize_export export).contacts
    × (lookup "session_token" (sanitize_export export).extra
        ≡ (if elem "session_token" secret_keys then none else lookup "session_token" export.extra))
    × OwnPart "tnt_1" (other_row ∷ own_row ∷ []) (sanitize_export export).contacts
sanitize_export-IsSafe_example = sanitize_export-IsSafe export "session_token"
