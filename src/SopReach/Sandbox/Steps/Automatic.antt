-- ===== src/SopReach/Sandbox/Steps/Automatic.antt =====
-- `AllowAutomatic`, `QueueAutomatic` and `Release` of server/internal/sopreach/sandbox.go.
use leads_engine.Base.{
  suc, Bool, true, false, ◌||◌, not, Option, none, some, String, ◌==◌, [], if◌then◌else◌, lookup,
  insert,
}
use leads_engine.SopReach.{
  auto, channel_submission, queued, Refusal, incomplete_binding, tenant_mismatch,
  automatic_send_off, Verdict,
}
use leads_engine.SopReach.Decide.{decide}
use leads_engine.SopReach.Sandbox.{Reach, Outcome, StoredAuto, Sandbox, blank_outcome}
use leads_engine.SopReach.Sandbox.Steps.{
  of_action, Step, Server, finish, quiet, refusal_step, bound_reach, marketing_campaign_refusal,
  sticky_stop, refused, with_op, next_id, submit_state, submit_outcome, submit_posts, repeated,
}

unfoldable pub allow_step : Sandbox → Bool → Step
unfolding quiet
allow_step s on = record {
  state = record s { automatic = on };
  outcome = blank_outcome;
  posts = [];
}

unfoldable pub new_action : Sandbox → Reach → StoredAuto
unfolding next_id
new_action s r = record {
  id = next_id s "act_";
  reach = r;
  stopped = false;
  stop_reason = none;
  attempted = false;
  result = blank_outcome;
}

unfoldable pub queue_action : Sandbox → Reach → Step
unfolding quiet next_id new_action
queue_action s r =
    let id = next_id s "act_" in
    quiet (record s { n = suc s.n; actions = insert id (new_action s r) s.actions })
      (record blank_outcome {
        ok = true;
        id = id;
        kind = some channel_submission;
        status = some queued;
      })

unfoldable pub queue_step : Sandbox → Reach → Step
unfolding quiet refusal_step with_op queue_action
queue_step s r =
    if not s.automatic then refusal_step s automatic_send_off else elim (bound_reach r) [
      | some why ↦ refusal_step s why
      | none ↦
          let r' = with_op auto r in
          let v = decide r'.input in
          if not v.ok then quiet s (refused v) else elim (marketing_campaign_refusal r') [
            | some why ↦ refusal_step s why
            | none ↦ queue_action s r'
          ]
    ]

-- The queued action, with what may have stopped it since.
unfoldable pub merged : Reach → Reach → Reach
unfolding with_op
merged saved now =
    let i = saved.input in
    with_op auto (record saved {
      input = record i {
        is_human_takeover = now.input.is_human_takeover;
        is_unsubscribed = now.input.is_unsubscribed;
        is_revoked = now.input.is_revoked;
        inside_window = now.input.inside_window;
        is_rate_limited = now.input.is_rate_limited;
        is_global_stop = now.input.is_global_stop;
        is_customer_stop = now.input.is_customer_stop;
        is_rejected = now.input.is_rejected;
      };
    })

unfoldable pub stop_outcome : Option Refusal → Bool → Outcome
stop_outcome why stopped = record blank_outcome { refusal = why; stopped = stopped }

unfoldable pub put_action : Sandbox → String → StoredAuto → Sandbox
put_action s id act = record s { actions = insert id act s.actions }

-- The recheck refused: some refusals stop the action for good.
unfoldable pub stopped_action : StoredAuto → Option Refusal → StoredAuto
stopped_action act why = record act { stopped = true; stop_reason = why }

unfoldable pub attempted_action : StoredAuto → Outcome → StoredAuto
attempted_action act out = record act { attempted = true; result = out }

unfoldable pub release_refused : Sandbox → String → StoredAuto → Verdict → Step
unfolding quiet put_action stopped_action
release_refused s id act v =
    let out = refused v in
    if sticky_stop v.refusal
    then quiet (put_action s id (stopped_action act v.refusal)) (record out { stopped = true })
    else quiet s (record out { stopped = act.stopped })

unfoldable pub release_send : Sandbox → Server → String → StoredAuto → Reach → Step
unfolding finish put_action attempted_action
release_send s server id act r =
    let sent = submit_outcome s server act.reach.body r in
    let out = record sent { automatic_sent = sent.created_send } in
    let s' = put_action (submit_state s server act.reach.body r) id (attempted_action act out) in
    record {
      state = s';
      outcome = finish s' out;
      posts = submit_posts s (of_action id) act.reach.body r;
    }

unfoldable pub release_now : Sandbox → Server → String → StoredAuto → Reach → Step
unfolding refusal_step release_refused release_send
release_now s server id act r =
    let v = decide r.input in
    if not v.ok then release_refused s id act v else elim (marketing_campaign_refusal r) [
      | some why ↦ refusal_step s why
      | none ↦ release_send s server id act r
    ]

unfoldable pub release_action : Sandbox → Server → String → StoredAuto → Reach → Step
unfolding quiet refusal_step repeated stop_outcome put_action stopped_action release_now merged
release_action s server id act now =
    if not (now.input.tenant_id == act.reach.input.tenant_id)
      || not (now.input.action_tenant_id == act.reach.input.tenant_id)
    then refusal_step s tenant_mismatch
    else if act.stopped
    then quiet s (stop_outcome act.stop_reason true)
    else if act.attempted
    then quiet s (repeated act.result)
    else if not s.automatic
    then quiet (put_action s id (stopped_action act (some automatic_send_off)))
        (stop_outcome (some automatic_send_off) true)
    else release_now s server id act (merged act.reach now)

unfoldable pub release_step : Sandbox → Server → String → Reach → Step
unfolding refusal_step release_action
release_step s server id now = elim (lookup id s.actions) [
  | none ↦ refusal_step s incomplete_binding
  | some act ↦ release_action s server id act now
]
