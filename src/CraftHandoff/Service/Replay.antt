-- ===== src/CraftHandoff/Service/Replay.antt =====
-- What later calls do to a stored handoff and to a revoked permission.
use leads_engine.Base.{
  ◌≡◌, true, false, some, none, String, List, arith, ok, err, lookup, lookup-insert, eq_refl,
  eq_iff, inl, inr, refl, Option-cases, Result-cases, ap, size, ◌==◌, if◌then◌else◌,
}
use leads_engine.CraftHandoff.{permission_revoked, cross_tenant, State, Input, Handed}
use leads_engine.CraftHandoff.Service.Tenants.{bind_binds, handoff_binds, run_owned}
use leads_engine.CraftHandoff.Service.{
  is_foreign, bind, revoke, input_refusal, is_revoked, key_of, new_handoff, seal, handoff_bound,
  handoff, projects, Call, run,
}
use leads_engine.CraftHandoff.Service.Kept.{handoffs-bind, handoffs-revoke, run_kept, run_revoked}

module _ (digest : String → String) where
  -- What a call that got through has stored.
  seal-new_handoff : (i : Input) → seal (new_handoff digest i) ≡ new_handoff digest i
  unfolding seal new_handoff
  seal-new_handoff i = refl

  handoff_bound_stores :
      (s : State) (i : Input) (h : Handed)
      → (handoff_bound digest s i).1 ≡ ok h
      → (held : Handed) × (lookup (key_of i) (handoff_bound digest s i).0.handoffs ≡ some held)
        × (h ≡ seal held)
  unfolding handoff_bound
  handoff_bound_stores s i h e = elim (Option-cases (lookup (key_of i) s.handoffs)) [
    | inr (existing, found) ↦ (existing, ground arith, ground arith)
    | inl vacant_key ↦ (
      new_handoff digest i,
      ground (
        arith,
        lookup-insert (key_of i) (key_of i) (new_handoff digest i) s.handoffs,
        eq_refl (key_of i),
      ),
      ground (arith, seal-new_handoff i),
    )
  ]

  pub handoff_stores :
      (s : State) (i : Input) (h : Handed)
      → (handoff digest s i).1 ≡ ok h
      → (held : Handed) × (lookup (key_of i) (handoff digest s i).0.handoffs ≡ some held)
        × (h ≡ seal held)
  unfolding handoff
  handoff_stores s i h e = elim (Option-cases (input_refusal i)) [
    | inr (why, r) ↦ absurd (ground arith)
    | inl clear ↦ elim (Result-cases (bind s i.tenant_id i.lead_id)) [
      | inl (why, r) ↦ absurd (ground arith)
      | inr (bound, r) ↦
          let (held, found, same) = handoff_bound_stores bound i h (ground arith) in
          (held, ground arith, same)
    ]
  ]

  -- A handoff under a stored key.
  handoff_again :
      (s : State) (i : Input) (held : Handed)
      → lookup (key_of i) s.handoffs ≡ some held
      → ((handoff digest s i).0.handoffs ≡ s.handoffs)
  unfolding handoff handoff_bound
  handoff_again s i held found = elim (Result-cases (bind s i.tenant_id i.lead_id)) [
    | inl (e, r) ↦ ground arith
    | inr (bound, r) ↦ let same = handoffs-bind s i.tenant_id i.lead_id bound r in ground arith
  ]

  handoff_answer :
      (s : State) (i : Input) (held : Handed)
      → lookup (key_of i) s.handoffs ≡ some held
      → lookup i.lead_id s.leads ≡ some i.tenant_id
      → input_refusal i ≡ none
      → is_revoked s i.lead_id ≡ false
      → (handoff digest s i).1 ≡ ok (seal held)
  unfolding handoff handoff_bound bind is_foreign is_revoked
  handoff_answer s i held found owned clear allowed = let same = eq_refl i.tenant_id in ground arith

key_same :
    (i again : Input)
    → again.tenant_id ≡ i.tenant_id
    → again.lead_id ≡ i.lead_id
    → again.version ≡ i.version
    → again.target ≡ i.target
    → key_of again ≡ key_of i
unfolding key_of
key_same i again t l v g = cc

-- A handoff that succeeded is answered with the same result, and without a further project, to the
-- same tenant, lead, version and target after any further calls, whatever else the new input holds
-- if the checks of the arguments pass and the lead is not revoked.
pub handoff_replay :
    (digest : String → String) (s : State) (i again : Input) (h : Handed) (calls : List Call)
    → (handoff digest s i).1 ≡ ok h
    → again.tenant_id ≡ i.tenant_id
    → again.lead_id ≡ i.lead_id
    → again.version ≡ i.version
    → again.target ≡ i.target
    → input_refusal again ≡ none
    → is_revoked (run digest (handoff digest s i).0 calls) again.lead_id ≡ false
    → let s' = run digest (handoff digest s i).0 calls in
      ((handoff digest s' again).1 ≡ ok h) × (projects (handoff digest s' again).0 ≡ projects s')
unfolding projects
handoff_replay digest s i again h calls e t l v g clear allowed =
    let s' = run digest (handoff digest s i).0 calls in
    let (held, found, same) = handoff_stores digest s i h e in
    let found' : lookup (key_of again) s'.handoffs ≡ some held =
      rw (key_same i again t l v g)
        (run_kept digest (key_of i) held (handoff digest s i).0 calls found) in
    let owned =
      run_owned digest i.lead_id i.tenant_id (handoff digest s i).0 calls
        (handoff_binds digest s i h e) in
    let owned' : lookup again.lead_id s'.leads ≡ some again.tenant_id = rw (t, l) owned in
    let answer = handoff_answer digest s' again held found' owned' clear allowed in
    (rw same answer, ap size (handoff_again digest s' again held found'))

revoke_stores :
    (s : State) (tenant lead : String)
    → (revoke s tenant lead).1 ≡ ok tt
    → (lookup lead (revoke s tenant lead).0.revoked ≡ some true)
      × (lookup lead (revoke s tenant lead).0.leads ≡ some tenant)
unfolding revoke
revoke_stores s tenant lead e = elim (Result-cases (bind s tenant lead)) [
  | inl (why, r) ↦ absurd (ground arith)
  | inr (bound, r) ↦
      let stored = lookup-insert lead lead true bound.revoked in
      let same = eq_refl lead in
      let bind_fact = bind_binds s tenant lead bound r in (ground arith, ground arith)
]

handoff-IsRevoked :
    (digest : String → String) (s : State) (i : Input) (tenant : String)
    → lookup i.lead_id s.revoked ≡ some true
    → lookup i.lead_id s.leads ≡ some tenant
    → input_refusal i ≡ none
    → ((handoff digest s i).1
        ≡ err (if i.tenant_id == tenant then permission_revoked else cross_tenant))
      × ((handoff digest s i).0.handoffs ≡ s.handoffs)
unfolding handoff handoff_bound bind is_foreign is_revoked
handoff-IsRevoked digest s i tenant found owned clear =
    let same = eq_iff i.tenant_id tenant in
    let turned = eq_iff tenant i.tenant_id in (ground arith, ground arith)

-- After a revocation that succeeded and any further calls, every handoff of the lead that passes
-- the checks of its arguments is refused and stores nothing, one that succeeded before it included:
-- as revoked for the tenant that revoked, as a cross-tenant access for any other; the revocation
-- itself keeps the drafts and the stored handoffs.
pub revoked_forever :
    (digest : String → String) (s : State) (tenant lead : String) (calls : List Call) (i : Input)
    → (revoke s tenant lead).1 ≡ ok tt
    → i.lead_id ≡ lead
    → input_refusal i ≡ none
    → let s1 = (revoke s tenant lead).0 in
      let s2 = run digest s1 calls in
      ((handoff digest s2 i).1
        ≡ err (if i.tenant_id == tenant then permission_revoked else cross_tenant))
      × ((handoff digest s2 i).0.handoffs ≡ s2.handoffs)
      × (s1.drafts ≡ s.drafts)
      × (s1.handoffs ≡ s.handoffs)
unfolding revoke bind
revoked_forever digest s tenant lead calls i e l clear =
    let s1 = (revoke s tenant lead).0 in
    let s2 = run digest s1 calls in
    let (stored, bound) = revoke_stores s tenant lead e in
    let stopped : lookup i.lead_id s2.revoked ≡ some true =
      rw l (run_revoked digest lead s1 calls stored) in
    let owned : lookup i.lead_id s2.leads ≡ some tenant =
      rw l (run_owned digest lead tenant s1 calls bound) in
    let (refused, kept) = handoff-IsRevoked digest s2 i tenant stopped owned clear in
    (refused, kept, ground arith, handoffs-revoke s tenant lead)
