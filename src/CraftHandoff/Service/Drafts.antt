-- ===== src/CraftHandoff/Service/Drafts.antt =====
-- The drafts that the service keeps, and the counts of what it never does.
use leads_engine.Base.{
  ◌≡◌, true, false, not, some, String, Result, err, ◌==◌, List, [], ◌∷◌, arith, ok, lookup,
  inserted_cases, subst, sym, ltz, pos, ◌||◌, eq_iff, trim_space, inl, inr, refl, Option-cases,
  Result-cases, Bool-cases, blank,
}
use leads_engine.CraftHandoff.{State, Input, SaveRequest, Draft, Fact, Error, new_service}
use leads_engine.CraftHandoff.Material.{canonical_id, selected_copy}
use leads_engine.CraftHandoff.Service.{
  bind, put_draft, new_draft, seal_draft, edited, store_copy, own_draft, draft, handoff_bound,
  handoff, Call, call_save, call_edit, call_revoke, call_handoff, step, run, input_refusal,
  save_draft, edit_by_hand, revoke,
}

-- A draft that was neither sent nor published, and that people may edit.
abbrev pub IsUnsent : Draft → Type 0
IsUnsent d =
    (d.sent ≡ false)
    × (d.published ≡ false)
    × (d.marketing_license ≡ false)
    × (d.reply_bot_started ≡ false)
    × (d.editable_by_hand ≡ true)

-- No provider was called, no charge written, no reply bot started.
abbrev pub IsIdle : State → Type 0
IsIdle s = (s.provider_calls ≡ 0) × (s.charge_writes ≡ 0) × (s.reply_bots ≡ 0)

abbrev IsSealed : String → Draft → Type 0
IsSealed j d = (d.lead_id ≡ j) × IsUnsent d

-- Every draft that is kept, under its lead.
abbrev AllSealed : State → Type 0
AllSealed s = IsIdle s × ((j : String) (d : Draft) → lookup j s.drafts ≡ some d → IsSealed j d)

new_draft-IsUnsent :
    (req : SaveRequest) (facts : List Fact) (body : String)
    → IsSealed req.lead_id (new_draft req facts body)
unfolding new_draft seal_draft
new_draft-IsUnsent req facts body = (refl, (refl, refl, refl, refl, refl))

edited-IsSealed :
    (j : String) (d : Draft) (body : String) → IsSealed j d → IsSealed j (edited d body)
unfolding edited seal_draft
edited-IsSealed j d body h = (h.0, (refl, refl, refl, refl, refl))

put_draft-AllSealed :
    (s : State) (lead : String) (d : Draft)
    → IsSealed lead d
    → AllSealed s
    → AllSealed (put_draft s lead d)
unfolding put_draft
put_draft-AllSealed s lead d sealed (idle, all) = (
  idle,
  λ j x found. elim (inserted_cases lead j d x s.drafts found) [
    | inl old ↦ all j x old
    | inr (same_lead, same) ↦
        subst (λ (k : String). IsSealed k x) same_lead (subst (IsSealed lead) same sealed)
  ],
)

bind-AllSealed :
    (s : State) (tenant lead : String) (bound : State)
    → bind s tenant lead ≡ ok bound
    → AllSealed s
    → AllSealed bound
unfolding bind
bind-AllSealed s tenant lead bound e (idle, all) =
    ((ground arith, ground arith, ground arith), λ j d found. all j d (ground arith))

-- The states that equal one whose drafts are sealed.
moved : (s s' : State) → s' ≡ s → AllSealed s → AllSealed s'
moved s s' e all = subst AllSealed (sym e) all

store_copy-AllSealed :
    (s : State) (req : SaveRequest) (facts : List Fact) (body : String)
    → AllSealed s
    → AllSealed (store_copy s req facts body).0
unfolding store_copy
store_copy-AllSealed s req facts body all = elim (Result-cases (bind s req.tenant_id req.lead_id)) [
  | inl (why, r) ↦ moved s (store_copy s req facts body).0 (ground arith) all
  | inr (bound, r) ↦
      let new = new_draft req facts body in
      moved (put_draft bound req.lead_id new) (store_copy s req facts body).0 (ground arith) (
        put_draft-AllSealed bound req.lead_id new (new_draft-IsUnsent req facts body)
          (bind-AllSealed s req.tenant_id req.lead_id bound r all))
]

save-AllSealed : (s : State) (req : SaveRequest) → AllSealed s → AllSealed (save_draft s req).0
unfolding save_draft
save-AllSealed s req all =
    let refused =
      not (canonical_id req.tenant_id)
      || not (canonical_id req.lead_id)
      || ltz req.version (pos 1) in
    elim (Bool-cases refused) [
      | inl no_id ↦ moved s (save_draft s req).0 (ground arith) all
      | inr fine ↦ elim (Result-cases (selected_copy req.facts)) [
        | inl (why, r) ↦ moved s (save_draft s req).0 (ground arith) all
        | inr ((facts, body), r) ↦
            moved (store_copy s req facts body).0 (save_draft s req).0 (ground arith)
              (store_copy-AllSealed s req facts body all)
      ]
    ]

pub own_draft_found :
    (s : State) (tenant lead : String) (d : Draft)
    → own_draft s tenant lead ≡ ok d
    → (lookup lead s.drafts ≡ some d) × ((d.tenant_id == tenant) ≡ true)
unfolding own_draft
own_draft_found s tenant lead d e = (ground arith, ground arith)

edit-AllSealed :
    (s : State) (tenant lead body : String)
    → AllSealed s
    → AllSealed (edit_by_hand s tenant lead body).0
unfolding edit_by_hand
edit-AllSealed s tenant lead body all =
    let refused = not (canonical_id tenant) || not (canonical_id lead) || blank body in
    elim (Bool-cases refused) [
      | inl bad ↦ moved s (edit_by_hand s tenant lead body).0 (ground arith) all
      | inr fine ↦ elim (Result-cases (own_draft s tenant lead)) [
        | inl (why, r) ↦ moved s (edit_by_hand s tenant lead body).0 (ground arith) all
        | inr (d, r) ↦
            let new = edited d (trim_space body) in
            let (found, _) = own_draft_found s tenant lead d r in
            moved (put_draft s lead new) (edit_by_hand s tenant lead body).0 (ground arith) (
              put_draft-AllSealed s lead new
                (edited-IsSealed lead d (trim_space body) (all.1 lead d found)) all)
      ]
    ]

revoke-AllSealed :
    (s : State) (tenant lead : String) → AllSealed s → AllSealed (revoke s tenant lead).0
unfolding revoke
revoke-AllSealed s tenant lead all =
    elim (Bool-cases (not (canonical_id tenant) || not (canonical_id lead))) [
      | inl bad ↦ moved s (revoke s tenant lead).0 (ground arith) all
      | inr fine ↦ elim (Result-cases (bind s tenant lead)) [
        | inl (why, r) ↦ moved s (revoke s tenant lead).0 (ground arith) all
        | inr (bound, r) ↦
            let (idle, kept) = bind-AllSealed s tenant lead bound r all in
            ((ground arith, ground arith, ground arith), λ j d found. kept j d (ground arith))
      ]
    ]

module _ (digest : String → String) where
  handoff_bound-AllSealed :
      (s : State) (i : Input) → AllSealed s → AllSealed (handoff_bound digest s i).0
  unfolding handoff_bound
  handoff_bound-AllSealed s i (idle, all) =
      ((ground arith, ground arith, ground arith), λ j d found. all j d (ground arith))

  handoff-AllSealed : (s : State) (i : Input) → AllSealed s → AllSealed (handoff digest s i).0
  unfolding handoff
  handoff-AllSealed s i all = elim (Option-cases (input_refusal i)) [
    | inr (why, r) ↦ moved s (handoff digest s i).0 (ground arith) all
    | inl clear ↦ elim (Result-cases (bind s i.tenant_id i.lead_id)) [
      | inl (why, r) ↦ moved s (handoff digest s i).0 (ground arith) all
      | inr (bound, r) ↦
          moved (handoff_bound digest bound i).0 (handoff digest s i).0 (ground arith)
            (handoff_bound-AllSealed bound i (bind-AllSealed s i.tenant_id i.lead_id bound r all))
    ]
  ]

  step-AllSealed : (s : State) (c : Call) → AllSealed s → AllSealed (step digest s c)
  unfolding step
  step-AllSealed s (call_save req) all = save-AllSealed s req all
  step-AllSealed s (call_edit tenant lead body) all = edit-AllSealed s tenant lead body all
  step-AllSealed s (call_revoke tenant lead) all = revoke-AllSealed s tenant lead all
  step-AllSealed s (call_handoff i) all = handoff-AllSealed s i all

  run-AllSealed : (s : State) (calls : List Call) → AllSealed s → AllSealed (run digest s calls)
  unfolding run
  run-AllSealed s [] all = all
  run-AllSealed s (c ∷ calls) all = run-AllSealed (step digest s c) calls (step-AllSealed s c all)

new-AllSealed : AllSealed new_service
unfolding lookup
new-AllSealed = ((refl, refl, refl), λ j d found. absurd (ground arith))

draft_found :
    (s : State) (tenant lead : String) (d : Draft)
    → draft s tenant lead ≡ ok d
    → own_draft s tenant lead ≡ ok d
unfolding draft
draft_found s tenant lead d e = ground arith

-- What reading a draft gives: the asking tenant's and lead's own, unsent, or a refusal.
abbrev pub ReadsUnsent : String → String → Result Error Draft → Type 0
ReadsUnsent tenant lead (ok d) = (d.tenant_id ≡ tenant) × (d.lead_id ≡ lead) × IsUnsent d
ReadsUnsent tenant lead (err e) = Unit

draft-ReadsUnsent :
    (s : State) (tenant lead : String) → AllSealed s → ReadsUnsent tenant lead (draft s tenant lead)
draft-ReadsUnsent s tenant lead all = elim (Result-cases (draft s tenant lead)) [
  | inl (why, e) ↦ rw e tt
  | inr (d, e) ↦
      let (found, own) = own_draft_found s tenant lead d (draft_found s tenant lead d e) in
      let (same_lead, unsent) = all.1 lead d found in
      subst (ReadsUnsent tenant lead) (sym e) ((eq_iff d.tenant_id tenant).0 own, same_lead, unsent)
]

-- After any calls of a new service, handoffs alone included, no provider was called, no charge was
-- written and no reply bot was started; and any draft that can then be read belongs to the tenant and
-- the lead that ask for it, was neither sent nor published nor licensed, started no reply bot, and
-- may be edited by hand.
pub draft-IsUnsent :
    (digest : String → String) (calls : List Call) (tenant lead : String)
    → let s = run digest new_service calls in
      IsIdle s × ReadsUnsent tenant lead (draft s tenant lead)
draft-IsUnsent digest calls tenant lead =
    let s = run digest new_service calls in
    let (idle, all) = run-AllSealed digest new_service calls new-AllSealed in
    (idle, draft-ReadsUnsent s tenant lead (idle, all))
