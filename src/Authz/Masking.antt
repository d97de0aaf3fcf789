-- ===== src/Authz/Masking.antt =====
-- What a refusal tells the caller.
use leads_engine.Base.{
  ◌≡◌, ◌≢◌, ◌⊎◌, inl, inr, ◌↔◌, true, Option, none, some, String, arith, eq_iff, text_cases,
}
use leads_engine.Authz.{
  owner, Action, read_record, update, Member, AgentGrant, RecordScope, authorize, not_found,
}

abbrev pub IsRecordAction : Action → Type 0
IsRecordAction read_record = Unit
IsRecordAction update = Unit
IsRecordAction _ = ⊥

-- Every decision carries a reason exactly when it is a refusal, and is masked as 404 exactly when
-- that reason is `not_found`.
pub authorize-reason_iff :
    (m : Option Member) (grant : Option AgentGrant) (a : Action) (rec : RecordScope)
    → (((authorize m grant a rec).allowed ≡ true) ↔ ((authorize m grant a rec).reason ≡ none))
      × (((authorize m grant a rec).mask_as_404 ≡ true)
          ↔ ((authorize m grant a rec).reason ≡ some not_found))
unfolding authorize
authorize-reason_iff none grant a rec = ((λ h. cc, λ h. cc), (λ h. cc, λ h. cc))
authorize-reason_iff (some m) grant a rec =
    ((λ h. ground arith, λ h. ground arith), (λ h. ground arith, λ h. ground arith))

-- A masked refusal is of a read or an update by a member who is not the owner, of a record that
-- is not assigned to the member, where an empty id is nobody's; the answer stays the same whoever
-- else the record is assigned to.
pub masked-same_answer :
    (m : Member) (grant : Option AgentGrant) (a : Action) (rec : RecordScope) (other : String)
    → (authorize (some m) grant a rec).mask_as_404 ≡ true
    → other ≢ m.id
    → IsRecordAction a
      × (m.role ≢ owner)
      × ((rec.assignee_member_id ≡ "") ⊎ (rec.assignee_member_id ≢ m.id))
      × (authorize (some m) grant a (record rec { assignee_member_id = other })
          ≡ authorize (some m) grant a rec)
unfolding authorize
masked-same_answer m grant a rec other h ne =
    let theirs = eq_iff other m.id in
    let none_set = eq_iff other "" in
    let nobody = eq_iff rec.assignee_member_id "" in
    let own = eq_iff rec.assignee_member_id m.id in
    (
      ground arith,
      ground arith,
      elim (text_cases rec.assignee_member_id "") [
        | inl e ↦ inl e
        | inr e ↦ inr (λ same. ground arith)
      ],
      ground arith,
    )
