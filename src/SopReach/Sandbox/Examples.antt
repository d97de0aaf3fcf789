-- ===== src/SopReach/Sandbox/Examples.antt =====
-- Runs of the scheduler, and its theorems at them.
use Prim.Native.Nat.{◌≤◌}
use leads_engine.Base.{
  ◌≡◌, ◌≢◌, refl, true, false, some, pos, List, [], ◌∷◌, lookup, insert, itoa, elem,
}
use leads_engine.SopReach.{automatic_send_off, unattended, auto}
use leads_engine.SopReach.Decide.Examples.{follow_up, decisions}
use leads_engine.SopReach.Sandbox.{Reach, Sandbox, Callback, StoredAuto, new_sandbox, blank_outcome}
use leads_engine.SopReach.Sandbox.Steps.{
  Server, of_draft, of_action, finish, quiet, refusal_step, bound_reach, same_action,
  marketing_campaign_refusal, sticky_stop, refused, with_op, next_id, submit_state, submit_outcome,
  submit_posts,
}
use leads_engine.SopReach.Sandbox.Steps.Chain.{
  remind_step, draft_step, store_draft, new_draft, confirm_step, confirm_draft, confirm_send,
  attempted_draft,
}
use leads_engine.SopReach.Sandbox.Steps.Automatic.{
  allow_step, queue_step, queue_action, new_action, release_step, release_action, release_now,
  release_refused, stopped_action, put_action, merged,
}
use leads_engine.SopReach.Sandbox.Steps.Run.{
  Request, ask_automatic, ask_remind, ask_draft, ask_confirm, ask_queue, ask_release, run, step,
  posts_of,
}
use leads_engine.SopReach.Sandbox.Steps.Callbacks.{callback_step}
use leads_engine.SopReach.Sandbox.Once.{sent, posted_once}
use leads_engine.SopReach.Sandbox.Permission.{Permits, posts-Permits}
use leads_engine.SopReach.Sandbox.Sticky.{stopped_forever}

abbrev server : Server
server _ = some 200

abbrev reach : Reach
reach = record {
  input = follow_up;
  contact_id = "con_1";
  campaign_id = "cmp_1";
  consent_campaign_id = "cmp_1";
  enrolled_campaign_id = "";
  body = "hello";
  role = "authorized_test";
  reminder_id = "rem_1";
  draft_id = "drf_2";
}

abbrev chain : List (Request × Server)
chain =
    (ask_remind reach, server)
    ∷ (ask_draft reach, server)
    ∷ (ask_confirm reach, server)
    ∷ (ask_confirm reach, server)
    ∷ []

-- What a test computes with.
opened : Unit {0}
unfolding step run posts_of allow_step remind_step draft_step store_draft new_draft confirm_step
    confirm_draft confirm_send attempted_draft queue_step queue_action new_action release_step
    release_action release_now release_refused stopped_action put_action merged callback_step quiet
    refusal_step bound_reach same_action marketing_campaign_refusal sticky_stop refused with_op
    next_id submit_state submit_outcome submit_posts finish lookup insert itoa decisions elem
opened = tt

abbrev fixture : Sandbox
fixture = new_sandbox "http://127.0.0.1:9"

chain_posts : sent (of_draft "drf_2") fixture chain ≡ 1
unfolding opened
chain_posts = refl

posted_once_example : sent (of_draft "drf_2") fixture chain ≤ 1
posted_once_example = posted_once "http://127.0.0.1:9" chain (of_draft "drf_2")

abbrev drafted : Sandbox
drafted = run fixture ((ask_remind reach, server) ∷ (ask_draft reach, server) ∷ [])

drafted_posts : (step drafted server (ask_confirm reach)).posts ≢ []
unfolding opened
drafted_posts e = cc

posts-Permits_example : Permits drafted (ask_confirm reach)
posts-Permits_example = posts-Permits drafted server (ask_confirm reach) drafted_posts

-- An automatic action that was queued, and then found automatic send off.
abbrev alone : Reach
alone = record reach { input = record follow_up { level = unattended; explicit_unattended = true } }

abbrev switched_off : List (Request × Server)
switched_off =
    (ask_automatic true, server)
    ∷ (ask_queue alone, server)
    ∷ (ask_automatic false, server)
    ∷ (ask_release "act_1" alone, server)
    ∷ []

abbrev stopped_action_1 : StoredAuto
stopped_action_1 = record {
  id = "act_1";
  reach = record alone {
    input = record follow_up { op = auto; level = unattended; explicit_unattended = true };
  };
  stopped = true;
  stop_reason = some automatic_send_off;
  attempted = false;
  result = blank_outcome;
}

action_stopped : lookup "act_1" (run fixture switched_off).actions ≡ some stopped_action_1
unfolding opened
action_stopped = refl

stopped_forever_example :
    (lookup "act_1" (run (run fixture switched_off) chain).actions ≡ some stopped_action_1)
    × (sent (of_action "act_1") (run fixture switched_off) chain ≡ 0)
    × ((step
          (run (run fixture switched_off) chain)
          server
          (ask_release "act_1" alone)).outcome.refusal
        ≡ some automatic_send_off)
stopped_forever_example =
    stopped_forever "http://127.0.0.1:9" switched_off chain "act_1" stopped_action_1 server alone
      action_stopped refl refl refl

abbrev delivered_twice : Callback
delivered_twice = record {
  callback_id = "cb_1";
  message_id = "msg_3";
  tenant_id = "tnt_1";
  action_tenant_id = "tnt_1";
  http_status = pos 200;
}

-- The same callback id, from another tenant.
abbrev from_elsewhere : Callback
from_elsewhere = record delivered_twice { tenant_id = "tnt_2"; action_tenant_id = "tnt_2" }
