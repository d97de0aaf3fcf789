-- ===== src/Authz/Examples.antt =====
-- Tests of `authorize`, and its theorems at concrete members and records.
use leads_engine.Base.{◌≡◌, ◌≢◌, ◌⊎◌, ◌↔◌, refl, true, false, none, some, String, arith, eq_iff}
use leads_engine.Authz.{
  owner, sales, read_record, merge, update, Member, RecordScope, authorize, not_found,
}
use leads_engine.Authz.Matrix.{RoleMay, authorize-allowed_iff}
use leads_engine.Authz.Masking.{IsRecordAction, authorize-reason_iff, masked-same_answer}

abbrev seller : Member
seller = record {
  id = "mem_2";
  tenant_id = "tnt_1";
  principal_ref = "usr_2";
  role = sales;
  enabled = true;
}

abbrev theirs : RecordScope
theirs = record { tenant_id = "tnt_1"; assignee_member_id = "mem_9" }

masked : (authorize (some seller) none update theirs).mask_as_404 ≡ true
unfolding authorize
masked = refl

merge_refused : (authorize (some seller) none merge theirs).allowed ≡ false
unfolding authorize
merge_refused = refl

authorize-allowed_iff_example :
    ((authorize (some seller) none read_record theirs).allowed ≡ true) ↔ (
      (seller.enabled ≡ true)
      × ((theirs.tenant_id ≡ "") ⊎ (theirs.tenant_id ≡ seller.tenant_id))
      × RoleMay seller.role seller none theirs read_record)
authorize-allowed_iff_example = authorize-allowed_iff seller none read_record theirs

authorize-reason_iff_example :
    (((authorize (some seller) none update theirs).allowed ≡ true)
      ↔ ((authorize (some seller) none update theirs).reason ≡ none))
    × (((authorize (some seller) none update theirs).mask_as_404 ≡ true)
        ↔ ((authorize (some seller) none update theirs).reason ≡ some not_found))
authorize-reason_iff_example = authorize-reason_iff (some seller) none update theirs

unlike : ◌≢◌ {A = String} "mem_7" "mem_2"
unlike = ground (arith, eq_iff "mem_7" "mem_2")

masked-same_answer_example :
    IsRecordAction update
    × (seller.role ≢ owner)
    × ((theirs.assignee_member_id ≡ "") ⊎ (theirs.assignee_member_id ≢ seller.id))
    × (authorize (some seller) none update (record theirs { assignee_member_id = "mem_7" })
        ≡ authorize (some seller) none update theirs)
masked-same_answer_example = masked-same_answer seller none update theirs "mem_7" masked unlike
