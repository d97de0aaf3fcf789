-- ===== src/SopReach/Sandbox/Permission.antt =====
-- What must hold when a step posts, and what a stopped action can no longer do.
use leads_engine.Base.{
  ◌≢◌, ◌⊎◌, ◌≡◌, true, false, none, some, String, [], arith, lookup, eq_iff, inl, inr, Option-cases,
}
use leads_engine.SopReach.{confirm}
use leads_engine.SopReach.Decide.{decide}
use leads_engine.SopReach.Sandbox.{Reach, StoredDraft, StoredAuto, Sandbox}
use leads_engine.SopReach.Sandbox.Steps.{Server, with_op, marketing_campaign_refusal}
use leads_engine.SopReach.Sandbox.Steps.Chain.{
  remind_step, draft_step, confirm_step, store_draft, confirm_draft, confirm_send,
}
use leads_engine.SopReach.Sandbox.Steps.Automatic.{
  allow_step, queue_step, queue_action, release_step, release_action, release_now, release_refused,
  merged,
}
use leads_engine.SopReach.Sandbox.Steps.Callbacks.{
  callback_step, look_up_message, remember_callback,
}
use leads_engine.SopReach.Sandbox.Steps.Run.{Request, step, ask_confirm, ask_release}

-- A marketing action is for the campaign that the consent names.
abbrev pub IsForCampaign : Reach → Type 0
IsForCampaign r =
    (r.input.purpose ≢ "marketing")
    ⊎ ((r.campaign_id ≢ "") × (r.consent_campaign_id ≡ r.campaign_id))

-- What a request that posts has behind it.
abbrev pub Permits : Sandbox → Request → Type 0
Permits s (ask_confirm r) =
    ((decide (with_op confirm r).input).ok ≡ true)
    × (r.role ≡ "authorized_test")
    × IsForCampaign r
    × (d : StoredDraft) × (lookup r.draft_id s.drafts ≡ some d)
    × (d.attempted ≡ false)
    × (d.reach.input.tenant_id ≡ r.input.tenant_id)
Permits s (ask_release id now) =
    (s.automatic ≡ true)
    × (act : StoredAuto) × (lookup id s.actions ≡ some act)
    × (act.stopped ≡ false)
    × (act.attempted ≡ false)
    × (now.input.tenant_id ≡ act.reach.input.tenant_id)
    × (now.input.action_tenant_id ≡ act.reach.input.tenant_id)
    × ((decide (merged act.reach now).input).ok ≡ true)
    × IsForCampaign act.reach
Permits s _ = ⊥

marketing_campaign-none : (r : Reach) → marketing_campaign_refusal r ≡ none → IsForCampaign r
unfolding marketing_campaign_refusal
marketing_campaign-none r h =
    let m = eq_iff r.input.purpose "marketing" in
    let c = eq_iff r.campaign_id "" in
    let cc' = eq_iff r.consent_campaign_id r.campaign_id in ground arith

confirm-passed :
    (s : Sandbox) (server : Server) (r : Reach) (d : StoredDraft)
    → lookup r.draft_id s.drafts ≡ some d
    → (confirm_step s server r).posts ≢ []
    → ((decide (with_op confirm r).input).ok ≡ true)
      × (r.role ≡ "authorized_test")
      × (marketing_campaign_refusal r ≡ none)
      × (d.attempted ≡ false)
      × (d.reach.input.tenant_id ≡ r.input.tenant_id)
unfolding confirm_step confirm_draft confirm_send
confirm-passed s server r d e h =
    let role = eq_iff r.role "authorized_test" in
    let tenant = eq_iff r.input.tenant_id d.reach.input.tenant_id in
    (ground arith, ground arith, ground arith, ground arith, ground arith)

confirm_found :
    (s : Sandbox) (server : Server) (r : Reach)
    → (confirm_step s server r).posts ≢ []
    → (d : StoredDraft) × (lookup r.draft_id s.drafts ≡ some d)
unfolding confirm_step
confirm_found s server r h = elim (Option-cases (lookup r.draft_id s.drafts)) [
  | inl e ↦ absurd (ground arith)
  | inr found ↦ found
]

release_found :
    (s : Sandbox) (server : Server) (id : String) (now : Reach)
    → (release_step s server id now).posts ≢ []
    → (act : StoredAuto) × (lookup id s.actions ≡ some act)
unfolding release_step
release_found s server id now h = elim (Option-cases (lookup id s.actions)) [
  | inl e ↦ absurd (ground arith)
  | inr found ↦ found
]

release-passed :
    (s : Sandbox) (server : Server) (id : String) (now : Reach) (act : StoredAuto)
    → lookup id s.actions ≡ some act
    → (release_step s server id now).posts ≢ []
    → (s.automatic ≡ true)
      × (act.stopped ≡ false)
      × (act.attempted ≡ false)
      × (now.input.tenant_id ≡ act.reach.input.tenant_id)
      × (now.input.action_tenant_id ≡ act.reach.input.tenant_id)
      × ((decide (merged act.reach now).input).ok ≡ true)
      × (marketing_campaign_refusal (merged act.reach now) ≡ none)
unfolding release_step release_action release_now release_refused
release-passed s server id now act e h =
    let caller = eq_iff now.input.tenant_id act.reach.input.tenant_id in
    let named = eq_iff now.input.action_tenant_id act.reach.input.tenant_id in
    (
      ground arith,
      ground arith,
      ground arith,
      ground arith,
      ground arith,
      ground arith,
      ground arith,
    )

IsForCampaign-merged : (saved now : Reach) → IsForCampaign (merged saved now) → IsForCampaign saved
unfolding merged
IsForCampaign-merged saved now h = h

-- A request that posts anything is a confirmation in the authorized test role, or a release while
-- automatic send is on of an action that is not stopped; it is the first attempt of a draft or action of the
-- caller's tenant, a release names the action's tenant as its own, the gate accepts it as it stands now,
-- and a marketing action is for the campaign that the consent names.
pub posts-Permits :
    (s : Sandbox) (server : Server) (req : Request) → (step s server req).posts ≢ [] → Permits s req
unfolding step allow_step remind_step draft_step store_draft queue_step queue_action callback_step
    look_up_message remember_callback
posts-Permits s server (ask_confirm r) h =
    let (d, e) = confirm_found s server r h in
    let (gate, role, campaign, first, tenant) = confirm-passed s server r d e h in
    (gate, role, marketing_campaign-none r campaign, d, e, first, tenant)
posts-Permits s server (ask_release id now) h =
    let (act, e) = release_found s server id now h in
    let (on, live, first, caller, named, gate, campaign) = release-passed s server id now act e h in
    (
      on,
      act,
      e,
      live,
      first,
      caller,
      named,
      gate,
      IsForCampaign-merged act.reach now (marketing_campaign-none (merged act.reach now) campaign),
    )
posts-Permits s server _ h = ground arith
