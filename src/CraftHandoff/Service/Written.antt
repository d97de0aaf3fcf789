-- ===== src/CraftHandoff/Service/Written.antt =====
-- What is read after a draft is saved or edited.
use leads_engine.Base.{
  ◌≡◌, true, false, not, String, List, arith, ok, lookup-insert, ltz, pos, ◌||◌, eq_refl,
  trim_space, inl, inr, refl, Result-cases, Bool-cases, blank,
}
use leads_engine.CraftHandoff.{State, SaveRequest, Draft, Fact}
use leads_engine.CraftHandoff.Material.{canonical_id, selected_copy}
use leads_engine.CraftHandoff.Service.{
  is_foreign, bind, put_draft, new_draft, seal_draft, edited, store_copy, own_draft, draft,
  save_draft, edit_by_hand,
}
use leads_engine.CraftHandoff.Service.Tenants.{bind_binds}

-- What a saved draft is read as.
store_copy_own :
    (s : State) (req : SaveRequest) (facts : List Fact) (body : String) (d : Draft)
    → (store_copy s req facts body).1 ≡ ok d
    → own_draft (store_copy s req facts body).0 req.tenant_id req.lead_id ≡ ok d
unfolding store_copy put_draft own_draft is_foreign new_draft seal_draft
store_copy_own s req facts body d e = elim (Result-cases (bind s req.tenant_id req.lead_id)) [
  | inl (why, r) ↦ absurd (ground arith)
  | inr (bound, r) ↦
      let stored = lookup-insert req.lead_id req.lead_id (new_draft req facts body) bound.drafts in
      let mine = bind_binds s req.tenant_id req.lead_id bound r in
      let same = eq_refl req.lead_id in let same_tenant = eq_refl req.tenant_id in ground arith
]

save_own :
    (s : State) (req : SaveRequest) (d : Draft)
    → (save_draft s req).1 ≡ ok d
    → (canonical_id req.tenant_id ≡ true)
      × (canonical_id req.lead_id ≡ true)
      × (own_draft (save_draft s req).0 req.tenant_id req.lead_id ≡ ok d)
unfolding save_draft
save_own s req d e =
    let refused =
      not (canonical_id req.tenant_id)
      || not (canonical_id req.lead_id)
      || ltz req.version (pos 1) in
    elim (Bool-cases refused) [
      | inl bad ↦ absurd (ground arith)
      | inr fine ↦ elim (Result-cases (selected_copy req.facts)) [
        | inl (why, r) ↦ absurd (ground arith)
        | inr ((facts, body), r) ↦
            (ground arith, ground arith, ground (arith, store_copy_own s req facts body d))
      ]
    ]

tenant-edited : (d : Draft) (body : String) → (edited d body).tenant_id ≡ d.tenant_id
unfolding edited seal_draft
tenant-edited d body = refl

own_draft-put_draft :
    (s : State) (tenant lead : String) (d new : Draft)
    → own_draft s tenant lead ≡ ok d
    → new.tenant_id ≡ d.tenant_id
    → own_draft (put_draft s lead new) tenant lead ≡ ok new
unfolding own_draft put_draft is_foreign
own_draft-put_draft s tenant lead d new e same =
    let stored = lookup-insert lead lead new s.drafts in let here = eq_refl lead in ground arith

edit_own :
    (s : State) (tenant lead body : String) (d : Draft)
    → canonical_id tenant ≡ true
    → canonical_id lead ≡ true
    → blank body ≡ false
    → own_draft s tenant lead ≡ ok d
    → ((edit_by_hand s tenant lead body).1 ≡ ok (edited d (trim_space body)))
      × (own_draft (edit_by_hand s tenant lead body).0 tenant lead
          ≡ ok (edited d (trim_space body)))
unfolding edit_by_hand
edit_own s tenant lead body d t l b own =
    let kept =
      own_draft-put_draft s tenant lead d (edited d (trim_space body)) own
        (tenant-edited d (trim_space body)) in
    (ground arith, ground arith)

draft_own :
    (s : State) (tenant lead : String) (d : Draft)
    → canonical_id tenant ≡ true
    → canonical_id lead ≡ true
    → own_draft s tenant lead ≡ ok d
    → draft s tenant lead ≡ ok d
unfolding draft
draft_own s tenant lead d t l own = ground arith

-- A draft that was saved is read back by its own tenant as it was answered; an edit by hand with a
-- text that is not blank then succeeds, changes the body to the trimmed text and keeps the facts,
-- the version and the tenant, and the edited draft is what is read back.
pub draft-save_draft :
    (s : State) (req : SaveRequest) (d : Draft) (body : String)
    → (save_draft s req).1 ≡ ok d
    → blank body ≡ false
    → let s1 = (save_draft s req).0 in
      let after = edit_by_hand s1 req.tenant_id req.lead_id body in
      let new = edited d (trim_space body) in
      (draft s1 req.tenant_id req.lead_id ≡ ok d)
      × (after.1 ≡ ok new)
      × (draft after.0 req.tenant_id req.lead_id ≡ ok new)
      × ((new.body ≡ trim_space body)
          × (new.facts ≡ d.facts)
          × (new.version ≡ d.version)
          × (new.tenant_id ≡ d.tenant_id))
unfolding edited seal_draft
draft-save_draft s req d body e b =
    let s1 = (save_draft s req).0 in
    let (t, l, own) = save_own s req d e in
    let (answer, kept) = edit_own s1 req.tenant_id req.lead_id body d t l b own in
    (
      draft_own s1 req.tenant_id req.lead_id d t l own,
      answer,
      draft_own (edit_by_hand s1 req.tenant_id req.lead_id body).0 req.tenant_id req.lead_id
          (edited d (trim_space body)) t l kept,
      (refl, refl, refl, refl),
    )
