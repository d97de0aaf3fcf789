-- ===== src/CraftHandoff/Service/Kept.antt =====
-- Which calls of the service change the stored handoffs and the revoked permissions.
use leads_engine.Base.{
  ◌≡◌, true, some, String, List, [], ◌∷◌, arith, ok, lookup, lookup-insert, eq_iff, inl, inr,
  Result-cases,
}
use leads_engine.CraftHandoff.{State, SaveRequest, Fact, Input, Handed}
use leads_engine.CraftHandoff.Material.{selected_copy}
use leads_engine.CraftHandoff.Service.{
  bind, put_draft, store_copy, save_draft, edit_by_hand, revoke, key_of, new_handoff, handoff_bound,
  handoff, Call, call_save, call_edit, call_revoke, call_handoff, step, run,
}

pub handoffs-bind :
    (s : State) (tenant lead : String) (bound : State)
    → bind s tenant lead ≡ ok bound
    → (bound.handoffs ≡ s.handoffs) × (bound.revoked ≡ s.revoked)
unfolding bind
handoffs-bind s tenant lead bound e = (ground arith, ground arith)

handoffs-store_copy :
    (s : State) (req : SaveRequest) (facts : List Fact) (body : String)
    → ((store_copy s req facts body).0.handoffs ≡ s.handoffs)
      × ((store_copy s req facts body).0.revoked ≡ s.revoked)
unfolding store_copy put_draft
handoffs-store_copy s req facts body = elim (Result-cases (bind s req.tenant_id req.lead_id)) [
  | inl (e, h) ↦ (ground arith, ground arith)
  | inr (bound, h) ↦
      let same = handoffs-bind s req.tenant_id req.lead_id bound h in (ground arith, ground arith)
]

pub handoffs-save :
    (s : State) (req : SaveRequest)
    → ((save_draft s req).0.handoffs ≡ s.handoffs) × ((save_draft s req).0.revoked ≡ s.revoked)
unfolding save_draft
handoffs-save s req = elim (Result-cases (selected_copy req.facts)) [
  | inl (e, h) ↦ (ground arith, ground arith)
  | inr ((facts, body), h) ↦
      let same = handoffs-store_copy s req facts body in (ground arith, ground arith)
]

pub handoffs-edit :
    (s : State) (tenant lead body : String)
    → ((edit_by_hand s tenant lead body).0.handoffs ≡ s.handoffs)
      × ((edit_by_hand s tenant lead body).0.revoked ≡ s.revoked)
unfolding edit_by_hand put_draft
handoffs-edit s tenant lead body = (ground arith, ground arith)

pub handoffs-revoke :
    (s : State) (tenant lead : String) → (revoke s tenant lead).0.handoffs ≡ s.handoffs
unfolding revoke
handoffs-revoke s tenant lead = elim (Result-cases (bind s tenant lead)) [
  | inl (e, h) ↦ ground arith
  | inr (bound, h) ↦ let same = handoffs-bind s tenant lead bound h in ground arith
]

module _ (digest : String → String) where
  revoked-handoff : (s : State) (i : Input) → (handoff digest s i).0.revoked ≡ s.revoked
  unfolding handoff handoff_bound
  revoked-handoff s i = elim (Result-cases (bind s i.tenant_id i.lead_id)) [
    | inl (e, h) ↦ ground arith
    | inr (bound, h) ↦ let same = handoffs-bind s i.tenant_id i.lead_id bound h in ground arith
  ]

  -- A stored handoff stays what it is.
  module _ (k : String) (h : Handed) where
    handoff_bound_kept :
        (s : State) (i : Input)
        → lookup k s.handoffs ≡ some h
        → lookup k (handoff_bound digest s i).0.handoffs ≡ some h
    unfolding handoff_bound
    handoff_bound_kept s i found =
        let stored = lookup-insert (key_of i) k (new_handoff digest i) s.handoffs in
        ground (arith, eq_iff (key_of i) k)

    handoff_kept :
        (s : State) (i : Input)
        → lookup k s.handoffs ≡ some h
        → lookup k (handoff digest s i).0.handoffs ≡ some h
    unfolding handoff
    handoff_kept s i found = elim (Result-cases (bind s i.tenant_id i.lead_id)) [
      | inl (e, r) ↦ ground arith
      | inr (bound, r) ↦
          let same = handoffs-bind s i.tenant_id i.lead_id bound r in
          ground (arith, handoff_bound_kept bound i)
    ]

    step_kept :
        (s : State) (c : Call)
        → lookup k s.handoffs ≡ some h
        → lookup k (step digest s c).handoffs ≡ some h
    unfolding step
    step_kept s (call_save req) found = rw (handoffs-save s req).0 found
    step_kept s (call_edit tenant lead body) found = rw (handoffs-edit s tenant lead body).0 found
    step_kept s (call_revoke tenant lead) found = rw (handoffs-revoke s tenant lead) found
    step_kept s (call_handoff i) found = handoff_kept s i found

    pub run_kept :
        (s : State) (calls : List Call)
        → lookup k s.handoffs ≡ some h
        → lookup k (run digest s calls).handoffs ≡ some h
    unfolding run
    run_kept s [] found = found
    run_kept s (c ∷ calls) found = run_kept (step digest s c) calls (step_kept s c found)

  -- A permission that was revoked stays revoked.
  module _ (j : String) where
    revoke-IsRevoked :
        (s : State) (tenant lead : String)
        → lookup j s.revoked ≡ some true
        → lookup j (revoke s tenant lead).0.revoked ≡ some true
    unfolding revoke
    revoke-IsRevoked s tenant lead found = elim (Result-cases (bind s tenant lead)) [
      | inl (e, h) ↦ ground arith
      | inr (bound, h) ↦
          let same = handoffs-bind s tenant lead bound h in
          let stored = lookup-insert lead j true bound.revoked in ground (arith, eq_iff lead j)
    ]

    step_revoked :
        (s : State) (c : Call)
        → lookup j s.revoked ≡ some true
        → lookup j (step digest s c).revoked ≡ some true
    unfolding step
    step_revoked s (call_save req) found = rw (handoffs-save s req).1 found
    step_revoked s (call_edit tenant lead body) found =
        rw (handoffs-edit s tenant lead body).1 found
    step_revoked s (call_revoke tenant lead) found = revoke-IsRevoked s tenant lead found
    step_revoked s (call_handoff i) found = rw (revoked-handoff s i) found

    pub run_revoked :
        (s : State) (calls : List Call)
        → lookup j s.revoked ≡ some true
        → lookup j (run digest s calls).revoked ≡ some true
    unfolding run
    run_revoked s [] found = found
    run_revoked s (c ∷ calls) found = run_revoked (step digest s c) calls (step_revoked s c found)
