-- ===== src/SopReach/Sandbox/Steps/Callbacks.antt =====
-- `Callback` of server/internal/sopreach/sandbox.go.
use leads_engine.Base.{
  ◌+◌, ltb, true, ◌||◌, not, Option, none, some, String, ◌==◌, if◌then◌else◌, lookup, insert,
}
use leads_engine.SopReach.{unknown, tenant_mismatch, original_missing}
use leads_engine.SopReach.Sandbox.{Outcome, Callback, OriginalMessage, Sandbox, blank_outcome}
use leads_engine.SopReach.Sandbox.Steps.{Step, quiet, repeated}

unfoldable pub remember_callback : Sandbox → String → Outcome → Sandbox
remember_callback s id out =
    if id == "" then s else record s { callbacks = insert id out s.callbacks }

-- `msg, ok := s.messages[c.MessageID]`, where an empty id finds nothing.
unfoldable pub message_of : Sandbox → Callback → Option OriginalMessage
message_of s c = if c.message_id == "" then none else lookup c.message_id s.messages

unfoldable pub callback_outcome : Option OriginalMessage → Callback → Outcome
callback_outcome none c = record blank_outcome {
  delivery = some unknown;
  refusal = some original_missing;
}
callback_outcome (some msg) c =
    if not (msg.tenant_id == c.tenant_id)
    then record blank_outcome { delivery = some unknown; refusal = some tenant_mismatch }
    else record blank_outcome {
      ok = true;
      found_original = true;
      id = msg.id;
      submission = some msg.submission;
      delivery = some unknown;
      duplicate = ltb 1 (msg.callbacks + 1);
    }

-- `msg.Callbacks++`, for the message of the caller's tenant.
unfoldable pub count_callback : Sandbox → Option OriginalMessage → Callback → Sandbox
count_callback s none c = s
count_callback s (some msg) c = if not (msg.tenant_id == c.tenant_id) then s else record s {
  messages = insert c.message_id (record msg { callbacks = msg.callbacks + 1 }) s.messages;
}

-- A callback not seen before, or one that has no id.
unfoldable pub look_up_message : Sandbox → Callback → Step
unfolding quiet remember_callback message_of callback_outcome count_callback
look_up_message s c =
    let msg = message_of s c in
    let out = callback_outcome msg c in
    quiet (remember_callback (count_callback s msg c) c.callback_id out) out

unfoldable pub callback_step : Sandbox → Callback → Step
unfolding quiet repeated look_up_message
callback_step s c =
    if c.tenant_id == "" || not (c.tenant_id == c.action_tenant_id)
    then quiet s (record blank_outcome { refusal = some tenant_mismatch; delivery = some unknown })
    else if not (c.callback_id == "")
    then elim (lookup c.callback_id s.callbacks) [
      | some prev ↦ quiet s (repeated prev)
      | none ↦ look_up_message s c
    ]
    else look_up_message s c
