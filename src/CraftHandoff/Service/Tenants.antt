-- ===== src/CraftHandoff/Service/Tenants.antt =====
-- The tenant that a lead belongs to, over any calls of the service.
use leads_engine.Base.{
  ◌≡◌, true, false, some, none, String, ◌==◌, List, [], ◌∷◌, arith, ok, err, lookup, lookup-insert,
  eq_iff, eq_refl, inl, inr, ltz, pos, Option-cases, Result-cases, blank, ◌≢◌,
}
use leads_engine.CraftHandoff.{cross_tenant, State, SaveRequest, Fact, Input, Handed}
use leads_engine.CraftHandoff.Material.{canonical_id, selected_copy}
use leads_engine.CraftHandoff.Service.{
  is_foreign, bind, put_draft, store_copy, save_draft, own_draft, draft, edit_by_hand, revoke,
  input_refusal, handoff_bound, handoff, Call, call_save, call_edit, call_revoke, call_handoff,
  step, run,
}

module _ (s : State) (j t : String) (owned : lookup j s.leads ≡ some t) where
  pub bind_owned :
      (tenant lead : String) (bound : State)
      → bind s tenant lead ≡ ok bound
      → lookup j bound.leads ≡ some t
  unfolding bind is_foreign
  bind_owned tenant lead bound e = elim (Option-cases (lookup lead s.leads)) [
    | inl none_yet ↦
        let stored = lookup-insert lead j tenant s.leads in ground (arith, eq_iff lead j)
    | inr (prev, found) ↦
        let stored = lookup-insert lead j tenant s.leads in
        ground (arith, eq_iff lead j, eq_iff prev tenant)
  ]

  store_copy_owned :
      (req : SaveRequest) (facts : List Fact) (body : String)
      → lookup j (store_copy s req facts body).0.leads ≡ some t
  unfolding store_copy put_draft
  store_copy_owned req facts body = elim (Result-cases (bind s req.tenant_id req.lead_id)) [
    | inl (e, h) ↦ ground arith
    | inr (bound, h) ↦ ground (arith, bind_owned req.tenant_id req.lead_id bound h)
  ]

  save_draft_owned : (req : SaveRequest) → lookup j (save_draft s req).0.leads ≡ some t
  unfolding save_draft
  save_draft_owned req = elim (Result-cases (selected_copy req.facts)) [
    | inl (e, h) ↦ ground arith
    | inr ((facts, body), h) ↦ ground (arith, store_copy_owned req facts body)
  ]

  edit_owned :
      (tenant lead body : String) → lookup j (edit_by_hand s tenant lead body).0.leads ≡ some t
  unfolding edit_by_hand put_draft
  edit_owned tenant lead body = ground arith

  revoke_owned : (tenant lead : String) → lookup j (revoke s tenant lead).0.leads ≡ some t
  unfolding revoke
  revoke_owned tenant lead = elim (Result-cases (bind s tenant lead)) [
    | inl (e, h) ↦ ground arith
    | inr (bound, h) ↦ ground (arith, bind_owned tenant lead bound h)
  ]

module _ (digest : String → String) where
  pub leads-handoff_bound : (s : State) (i : Input) → (handoff_bound digest s i).0.leads ≡ s.leads
  unfolding handoff_bound
  leads-handoff_bound s i = ground arith

  module _ (j t : String) where
    handoff_owned :
        (s : State) (i : Input)
        → lookup j s.leads ≡ some t
        → lookup j (handoff digest s i).0.leads ≡ some t
    unfolding handoff
    handoff_owned s i owned = elim (Result-cases (bind s i.tenant_id i.lead_id)) [
      | inl (e, h) ↦ ground arith
      | inr (bound, h) ↦
          ground (
            arith,
            bind_owned s j t owned i.tenant_id i.lead_id bound h,
            leads-handoff_bound bound i,
          )
    ]

    step_owned :
        (s : State) (c : Call)
        → lookup j s.leads ≡ some t
        → lookup j (step digest s c).leads ≡ some t
    unfolding step
    step_owned s (call_save req) owned = save_draft_owned s j t owned req
    step_owned s (call_edit tenant lead body) owned = edit_owned s j t owned tenant lead body
    step_owned s (call_revoke tenant lead) owned = revoke_owned s j t owned tenant lead
    step_owned s (call_handoff i) owned = handoff_owned s i owned

    pub run_owned :
        (s : State) (calls : List Call)
        → lookup j s.leads ≡ some t
        → lookup j (run digest s calls).leads ≡ some t
    unfolding run
    run_owned s [] owned = owned
    run_owned s (c ∷ calls) owned = run_owned (step digest s c) calls (step_owned s c owned)

-- A lead that was bound.
pub bind_binds :
    (s : State) (tenant lead : String) (bound : State)
    → bind s tenant lead ≡ ok bound
    → lookup lead bound.leads ≡ some tenant
unfolding bind
bind_binds s tenant lead bound e =
    ground (arith, lookup-insert lead lead tenant s.leads, eq_refl lead)

pub handoff_binds :
    (digest : String → String) (s : State) (i : Input) (h : Handed)
    → (handoff digest s i).1 ≡ ok h
    → lookup i.lead_id (handoff digest s i).0.leads ≡ some i.tenant_id
unfolding handoff
handoff_binds digest s i h e = elim (Result-cases (bind s i.tenant_id i.lead_id)) [
  | inl (why, r) ↦ ground arith
  | inr (bound, r) ↦
      ground (arith, bind_binds s i.tenant_id i.lead_id bound r, leads-handoff_bound digest bound i)
]

-- What another tenant gets of the lead.
module _ (s : State) (j t other : String) (owned : lookup j s.leads ≡ some t)
    (ne : (t == other) ≡ false) where
  foreign : is_foreign s other j ≡ true
  unfolding is_foreign
  foreign = ground arith

  draft_foreign :
      canonical_id other ≡ true → canonical_id j ≡ true → draft s other j ≡ err cross_tenant
  unfolding draft own_draft
  draft_foreign c d = ground (arith, foreign)

  edit_foreign :
      (body : String)
      → canonical_id other ≡ true
      → canonical_id j ≡ true
      → blank body ≡ false
      → edit_by_hand s other j body ≡ (s, err cross_tenant)
  unfolding edit_by_hand own_draft
  edit_foreign body c d b = ground (arith, foreign)

  revoke_foreign :
      canonical_id other ≡ true → canonical_id j ≡ true → revoke s other j ≡ (s, err cross_tenant)
  unfolding revoke bind
  revoke_foreign c d = ground (arith, foreign)

  handoff_foreign :
      (digest : String → String) (i : Input)
      → i.tenant_id ≡ other
      → i.lead_id ≡ j
      → input_refusal i ≡ none
      → handoff digest s i ≡ (s, err cross_tenant)
  unfolding handoff bind
  handoff_foreign digest i e f h =
      let f' : is_foreign s i.tenant_id i.lead_id ≡ true = rw (e, f) foreign in ground arith

  store_copy_foreign :
      (req : SaveRequest) (facts : List Fact) (body : String)
      → req.tenant_id ≡ other
      → req.lead_id ≡ j
      → store_copy s req facts body ≡ (s, err cross_tenant)
  unfolding store_copy bind
  store_copy_foreign req facts body e f =
      let f' : is_foreign s req.tenant_id req.lead_id ≡ true = rw (e, f) foreign in ground arith

  save_foreign :
      (req : SaveRequest) (facts : List Fact) (body : String)
      → canonical_id other ≡ true
      → canonical_id j ≡ true
      → req.tenant_id ≡ other
      → req.lead_id ≡ j
      → ltz req.version (pos 1) ≡ false
      → selected_copy req.facts ≡ ok (facts, body)
      → save_draft s req ≡ (s, err cross_tenant)
  unfolding save_draft
  save_foreign req facts body c d e f v copy =
      let c' : canonical_id req.tenant_id ≡ true = rw e c in
      let d' : canonical_id req.lead_id ≡ true = rw f d in
      let refused = store_copy_foreign req facts body e f in ground arith

-- Once a lead belongs to a tenant it does so after any further calls, and every later reading, edit,
-- revocation, handoff and saving of a copy of it by another tenant, if it passes the checks of its
-- arguments and its facts, is refused as a cross-tenant access and changes nothing.
pub lead_owner :
    (digest : String → String) (s : State) (calls : List Call) (lead t other body : String)
    (i : Input) (req : SaveRequest) (facts : List Fact) (copy : String)
    → lookup lead s.leads ≡ some t
    → t ≢ other
    → canonical_id other ≡ true
    → canonical_id lead ≡ true
    → blank body ≡ false
    → i.tenant_id ≡ other
    → i.lead_id ≡ lead
    → input_refusal i ≡ none
    → req.tenant_id ≡ other
    → req.lead_id ≡ lead
    → ltz req.version (pos 1) ≡ false
    → selected_copy req.facts ≡ ok (facts, copy)
    → let s' = run digest s calls in
      (lookup lead s'.leads ≡ some t)
      × (draft s' other lead ≡ err cross_tenant)
      × (edit_by_hand s' other lead body ≡ (s', err cross_tenant))
      × (revoke s' other lead ≡ (s', err cross_tenant))
      × (handoff digest s' i ≡ (s', err cross_tenant))
      × (save_draft s' req ≡ (s', err cross_tenant))
lead_owner digest s calls lead t other body i req facts copy owned ne c d b e f h e' f' v m =
    let s' = run digest s calls in
    let kept = run_owned digest lead t s calls owned in
    let differ : (t == other) ≡ false = ground (arith, eq_iff t other) in
    (
      kept,
      draft_foreign s' lead t other kept differ c d,
      edit_foreign s' lead t other kept differ body c d b,
      revoke_foreign s' lead t other kept differ c d,
      handoff_foreign s' lead t other kept differ digest i e f h,
      save_foreign s' lead t other kept differ req facts copy c d e' f' v m,
    )
