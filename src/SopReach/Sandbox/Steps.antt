-- ===== src/SopReach/Sandbox/Steps.antt =====
-- What the methods of `Sandbox` in server/internal/sopreach/sandbox.go share. What the fixture
-- server answers to a posted message is an argument: `none` for a transport error, or an HTTP
-- status. The requests that a step posts are listed beside its outcome.
pub mod Chain
pub mod Automatic
pub mod Callbacks
pub mod Run
use Prim.Native.String.{◌++◌}
use leads_engine.Base.{
  ℕ, suc, ◌+◌, ltb, ℤ, pos, Bool, true, false, ◌&&◌, ◌||◌, not, Option, none, some, String, ◌==◌,
  List, [], ◌∷◌, if◌then◌else◌, itoa, lookup, insert, nat_eq,
}
use leads_engine.SopReach.{
  Op, remind, draft, confirm, auto, Kind, internal_reminder, pending_draft, channel_submission,
  channel_delivery, Status, recorded, submission_accepted, unknown, queued, Refusal, human_takeover,
  unsubscribed, revoked, rate_limited, outside_window, incomplete_binding, tenant_mismatch,
  automatic_send_off, test_role_required, confirm_chain_required, campaign_not_permission,
  fixture_not_accepted, original_missing, Input, Record, Verdict,
}
use leads_engine.SopReach.Decide.{decide}
use leads_engine.SopReach.Sandbox.{
  Reach, Evidence, Outcome, Callback, StoredReach, StoredDraft, StoredAuto, OriginalMessage,
  FixtureMessage, Sandbox, blank_outcome,
}

-- Whose confirmation or release posted a message.
pub data Source : Type 0 where
  of_draft of_action : String → Source

pub record Step : Type 0 where
  pub state : Sandbox
  pub outcome : Outcome
  pub posts : List (Source × FixtureMessage)

abbrev pub Server : Type 0
Server = FixtureMessage → Option ℕ

abbrev formal_channel : String
formal_channel = "正式渠道未验证"

unfoldable pub snapshot : Sandbox → Evidence
snapshot s = record {
  service_provider = "NOT_VERIFIED";
  billing = "NOT_VERIFIED";
  production = "NOT_AUTHORIZED";
  human_adoption = "UNKNOWN";
  channel_stamp = formal_channel;
  charge_writes = s.charge_writes;
  billing_passed = s.billing_passed;
  provider_calls = s.provider_calls;
}

unfoldable pub finish : Sandbox → Outcome → Outcome
unfolding snapshot
finish s out = record out {
  evidence = snapshot s;
  stamp = formal_channel;
  delivered = false;
  replied = false;
}

-- A step that posts nothing.
unfoldable pub quiet : Sandbox → Outcome → Step
unfolding finish
quiet s out = record { state = s; outcome = finish s out; posts = [] }

unfoldable pub refusal_step : Sandbox → Refusal → Step
unfolding quiet
refusal_step s r = quiet s (record blank_outcome { refusal = some r })

unfoldable pub bound_reach : Reach → Option Refusal
bound_reach r =
    if r.contact_id == "" || r.campaign_id == ""
    then some incomplete_binding
    else if r.input.tenant_id == "" || not (r.input.tenant_id == r.input.action_tenant_id)
    then some tenant_mismatch
    else none

unfoldable pub int_eq : ℤ → ℤ → Bool
int_eq (pos a) (pos b) = nat_eq a b
int_eq (ℤ.negsuc a) (ℤ.negsuc b) = nat_eq a b
int_eq _ _ = false

unfoldable pub same_action : Reach → Reach → Bool
unfolding int_eq
same_action saved now =
    saved.input.tenant_id == now.input.tenant_id
    && saved.contact_id == now.contact_id
    && saved.campaign_id == now.campaign_id
    && saved.input.channel == now.input.channel
    && saved.input.purpose == now.input.purpose
    && int_eq saved.input.content_version now.input.content_version
    && saved.input.recipient == now.input.recipient

unfoldable pub marketing_campaign_refusal : Reach → Option Refusal
marketing_campaign_refusal r =
    if not (r.input.purpose == "marketing")
    then none
    else if r.campaign_id == "" || not (r.consent_campaign_id == r.campaign_id)
    then some campaign_not_permission
    else none

unfoldable pub sticky_stop : Option Refusal → Bool
sticky_stop (some human_takeover) = true
sticky_stop (some unsubscribed) = true
sticky_stop (some revoked) = true
sticky_stop (some outside_window) = true
sticky_stop (some rate_limited) = true
sticky_stop _ = false

unfoldable pub refused : Verdict → Outcome
refused v = elim v.records [
  | [] ↦ record blank_outcome { refusal = v.refusal; records = v.records }
  | r ∷ _ ↦ record blank_outcome {
    refusal = v.refusal;
    records = v.records;
    kind = some r.kind;
    status = some r.status;
  }
]

unfoldable pub with_op : Op → Reach → Reach
with_op op r = let i = r.input in record r { input = record i { op = op } }

-- `s.next(prefix)`: the new counter, and the id.
unfoldable pub next_id : Sandbox → String → String
next_id s prefix = prefix ++ itoa (suc s.n)

unfoldable pub message_for : Sandbox → String → Reach → FixtureMessage
unfolding next_id
message_for s body r = record {
  message_id = next_id s "msg_";
  tenant_id = r.input.tenant_id;
  contact_id = r.contact_id;
  campaign_id = r.campaign_id;
  channel = r.input.channel;
  purpose = r.input.purpose;
  content_version = r.input.content_version;
  body = body;
}

-- `s.post`: with no URL nothing is sent. Encoding and transport errors are the server's `none`.
unfoldable pub post : Sandbox → Server → FixtureMessage → Option ℕ
post s server msg = if s.fixture_url == "" then none else server msg

unfoldable pub accepted : Option ℕ → Bool
accepted none = false
accepted (some status) = nat_eq status 200

unfoldable pub rejected_send : Outcome
rejected_send = record blank_outcome {
  delivery = some unknown;
  refusal = some fixture_not_accepted;
}

unfoldable pub accepted_send : String → String → Outcome
accepted_send id body = record blank_outcome {
  ok = true;
  id = id;
  kind = some channel_submission;
  status = some submission_accepted;
  submission = some submission_accepted;
  delivery = some unknown;
  created_send = true;
  sent_body = body;
  records =
      record { kind = channel_submission; status = submission_accepted }
      ∷ record { kind = channel_delivery; status = unknown }
      ∷ [];
}

-- `s.submit`: the state with the message counted and, if accepted, kept; the outcome, which the
-- caller stores with the attempt; and what was posted.
unfoldable pub submit_state : Sandbox → Server → String → Reach → Sandbox
unfolding message_for post accepted
submit_state s server body r =
    let msg = message_for s body r in
    let kept : OriginalMessage = record {
      id = msg.message_id;
      tenant_id = r.input.tenant_id;
      submission = submission_accepted;
      delivery = unknown;
      callbacks = 0;
    } in
    if accepted (post s server msg)
    then record s { n = suc s.n; messages = insert msg.message_id kept s.messages }
    else record s { n = suc s.n }

unfoldable pub submit_outcome : Sandbox → Server → String → Reach → Outcome
unfolding message_for post accepted rejected_send accepted_send
submit_outcome s server body r =
    let msg = message_for s body r in
    if accepted (post s server msg) then accepted_send msg.message_id body else rejected_send

unfoldable pub submit_posts : Sandbox → Source → String → Reach → List (Source × FixtureMessage)
unfolding message_for
submit_posts s src body r = if s.fixture_url == "" then [] else (src, message_for s body r) ∷ []

-- A repeated attempt answers with the stored outcome, marked a duplicate.
unfoldable pub repeated : Outcome → Outcome
repeated prev = record prev { created_send = false; automatic_sent = false; duplicate = true }
