-- ===== src/SopReach/Sandbox/Steps/Chain.antt =====
-- `Remind`, `Draft` and `Confirm` of server/internal/sopreach/sandbox.go.
use leads_engine.Base.{suc, true, false, ◌||◌, not, none, some, ◌==◌, if◌then◌else◌, lookup, insert}
use leads_engine.SopReach.{
  remind, draft, confirm, internal_reminder, pending_draft, recorded, tenant_mismatch,
  test_role_required, confirm_chain_required,
}
use leads_engine.SopReach.Decide.{decide}
use leads_engine.SopReach.Sandbox.{Reach, Outcome, StoredDraft, Sandbox, blank_outcome}
use leads_engine.SopReach.Sandbox.Steps.{
  of_draft, Step, Server, finish, quiet, refusal_step, bound_reach, same_action,
  marketing_campaign_refusal, refused, with_op, next_id, submit_state, submit_outcome, submit_posts,
  repeated,
}

unfoldable pub remind_step : Sandbox → Reach → Step
unfolding refusal_step quiet with_op next_id
remind_step s r = elim (bound_reach r) [
  | some no_reach ↦ refusal_step s no_reach
  | none ↦
      let r' = with_op remind r in
      let v = decide r'.input in
      let id = next_id s "rem_" in
      if not v.ok
      then quiet s (refused v)
      else quiet
          (record s {
            n = suc s.n;
            reminders = insert id (record { id = id; reach = r' }) s.reminders;
          })
          (record blank_outcome {
            ok = true;
            id = id;
            kind = some internal_reminder;
            status = some recorded;
            records = v.records;
          })
]

unfoldable pub new_draft : Sandbox → Reach → StoredDraft
unfolding with_op next_id
new_draft s r = record {
  id = next_id s "drf_";
  reminder_id = r.reminder_id;
  reach = with_op draft r;
  attempted = false;
  result = blank_outcome;
}

unfoldable pub store_draft : Sandbox → Reach → Step
unfolding quiet with_op next_id new_draft
store_draft s r =
    let r' = with_op draft r in
    let v = decide r'.input in
    let id = next_id s "drf_" in
    if not v.ok
    then quiet s (refused v)
    else quiet (record s { n = suc s.n; drafts = insert id (new_draft s r) s.drafts })
        (record blank_outcome {
          ok = true;
          id = id;
          kind = some pending_draft;
          status = some recorded;
          records = v.records;
        })

unfoldable pub draft_step : Sandbox → Reach → Step
unfolding refusal_step store_draft
draft_step s r = elim (bound_reach r) [
  | some no_reach ↦ refusal_step s no_reach
  | none ↦ elim (lookup r.reminder_id s.reminders) [
    | none ↦ refusal_step s confirm_chain_required
    | some rem ↦
        if not (same_action rem.reach r)
        then refusal_step s confirm_chain_required
        else store_draft s r
  ]
]

unfoldable pub attempted_draft : StoredDraft → Outcome → StoredDraft
attempted_draft d out = record d { attempted = true; result = out }

unfoldable pub confirm_send : Sandbox → Server → StoredDraft → Reach → Step
unfolding quiet with_op finish attempted_draft
confirm_send s server d r =
    let r' = with_op confirm r in
    let v = decide r'.input in
    let out = submit_outcome s server d.reach.body r' in
    let s' = submit_state s server d.reach.body r' in
    let s'' = record s' { drafts = insert r.draft_id (attempted_draft d out) s'.drafts } in
    if not v.ok then quiet s (refused v) else record {
      state = s'';
      outcome = finish s'' out;
      posts = submit_posts s (of_draft r.draft_id) d.reach.body r';
    }

unfoldable pub confirm_draft : Sandbox → Server → StoredDraft → Reach → Step
unfolding quiet refusal_step confirm_send repeated
confirm_draft s server d r =
    if not (r.input.tenant_id == d.reach.input.tenant_id)
      || not (r.input.action_tenant_id == d.reach.input.tenant_id)
    then refusal_step s tenant_mismatch
    else if not (same_action d.reach r)
    then refusal_step s confirm_chain_required
    else if not (r.role == "authorized_test")
    then refusal_step s test_role_required
    else if d.attempted
    then quiet s (repeated d.result)
    else elim (marketing_campaign_refusal r) [
      | some why ↦ refusal_step s why
      | none ↦ confirm_send s server d r
    ]

unfoldable pub confirm_step : Sandbox → Server → Reach → Step
unfolding refusal_step confirm_draft
confirm_step s server r = elim (lookup r.draft_id s.drafts) [
  | none ↦ refusal_step s confirm_chain_required
  | some d ↦
      if d.reminder_id == ""
      then refusal_step s confirm_chain_required
      else elim (lookup d.reminder_id s.reminders) [
        | none ↦ refusal_step s confirm_chain_required
        | some _ ↦ confirm_draft s server d r
      ]
]
