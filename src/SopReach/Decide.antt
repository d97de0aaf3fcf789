-- ===== src/SopReach/Decide.antt =====
-- `Decide` of server/internal/sopreach/decide.go (the `Result` of that file is `Verdict`).
pub mod Sends
pub mod Quiet
pub mod Examples
use leads_engine.Base.{
  ℤ, pos, Bool, true, false, ◌&&◌, ◌||◌, not, Option, none, some, String, ◌==◌, List, [], ◌∷◌, ltz,
  elem, if◌then◌else◌,
}
use leads_engine.SopReach.{
  Op, remind, draft, confirm, retry, auto, user_reply, other_op, Level, unattended,
  internal_reminder, pending_draft, channel_submission, channel_delivery, reply_of_user, recorded,
  pending_send, undelivered, blocked, Refusal, unattended_closed, human_takeover, unsubscribed,
  rejected_schedule, original_unreconciled, attempt_exhausted, consent_scope, incomplete_binding,
  revoked, rate_limited, outside_window, global_stop, customer_stop, capability_missing,
  tenant_mismatch, Input, Record, Verdict,
}

is_unattended_level : Level → Bool
is_unattended_level unattended = true
is_unattended_level _ = false

unfoldable pub is_auto : Op → Bool
is_auto auto = true
is_auto _ = false

unfoldable pub is_retry : Op → Bool
is_retry retry = true
is_retry _ = false

-- The second result of `openLevel`, the only one that `Decide` reads.
unfoldable pub open_level : Input → Bool
unfolding is_unattended_level
open_level i = if i.explicit_unattended && is_unattended_level i.level then true else false

unfoldable pub bind : Input → Bool → Option Refusal
bind i sending =
    if i.tenant_id == "" || not (i.tenant_id == i.action_tenant_id)
    then some tenant_mismatch
    else if i.operator_id == ""
        || i.recipient == ""
        || ltz i.content_version (pos 1)
        || not i.budget_bound
    then some incomplete_binding
    else if not (i.channel == "sms") && not (i.channel == "email") && not (i.channel == "wecom")
    then some incomplete_binding
    else if not (i.purpose == "follow_up") && not (i.purpose == "marketing")
    then some incomplete_binding
    else if sending && not i.capability
    then some capability_missing
    else none

unfoldable pub consent_covers : Input → Bool
consent_covers i =
    if i.is_revoked || not (i.consent_purpose == i.purpose)
    then false
    else if i.purpose == "marketing" && (not i.marketing_allowed || i.consultation_only)
    then false
    else if i.consultation_only && i.purpose == "marketing"
    then false
    else elem i.channel i.consent_channels

-- `if max < 1 { max = 1 }`
unfoldable pub attempts_allowed : Input → ℤ
attempts_allowed i = if ltz i.max_attempts (pos 1) then pos 1 else i.max_attempts

unfoldable pub retry_refusal : Input → Option Refusal
unfolding is_retry
retry_refusal i =
    if is_retry i.op
    then if i.timed_out && not i.is_reconciled
      then some original_unreconciled
      else if ltz (attempts_allowed i) i.attempt
      then some attempt_exhausted
      else none
    else none

unfoldable pub stop_refusal : Input → Option Refusal
stop_refusal i =
    if i.is_global_stop
    then some global_stop
    else if i.is_customer_stop
    then some customer_stop
    else if i.is_revoked
    then some revoked
    else if i.is_unsubscribed
    then some unsubscribed
    else if i.is_rejected
    then some rejected_schedule
    else if i.is_rate_limited
    then some rate_limited
    else if not i.inside_window
    then some outside_window
    else if not (consent_covers i)
    then some consent_scope
    else none

unfoldable pub gate : Input → Option Refusal
gate i = elim (bind i true) [
  | some r ↦ some r
  | none ↦ elim (stop_refusal i) [ some r ↦ some r | none ↦ retry_refusal i ]
]

unfoldable pub refuse : Refusal → List Record → Verdict → Verdict
refuse r records out = record out { refusal = some r; records = records }

unfoldable pub accept : List Record → Verdict → Verdict
accept records out = record out { ok = true; records = records }

prepare : Record → Input → Verdict → Verdict
unfolding refuse accept
prepare fact i out = elim (bind i false) [
  | some r ↦ refuse r [] out
  | none ↦ accept (fact ∷ []) out
]

reply_recorded : Input → Verdict → Verdict
unfolding refuse accept
reply_recorded i out =
    if i.tenant_id == "" || not (i.tenant_id == i.action_tenant_id) || i.operator_id == ""
    then refuse incomplete_binding [] out
    else accept (record { kind = reply_of_user; status = recorded } ∷ []) out

unfoldable pub send : Input → Verdict → Verdict
unfolding refuse accept
send i out = elim (gate i) [
  | some r ↦ refuse r (record { kind = channel_submission; status = blocked } ∷ []) out
  | none ↦
      accept
        (record { kind = channel_submission; status = pending_send }
          ∷ record { kind = channel_delivery; status = undelivered }
          ∷ [])
        out
]

unfoldable pub by_op : Op → Input → Verdict → Verdict
unfolding prepare reply_recorded send refuse
by_op remind i out = prepare (record { kind = internal_reminder; status = recorded }) i out
by_op draft i out = prepare (record { kind = pending_draft; status = recorded }) i out
by_op user_reply i out = reply_recorded i out
by_op confirm i out = send i out
by_op retry i out = send i out
by_op auto i out = send i out
by_op (other_op _) i out = refuse incomplete_binding [] out

unfoldable pub decide : Input → Verdict
unfolding by_op refuse is_auto
decide i =
    let out : Verdict = record {
      ok = false;
      refusal = none;
      is_unattended = open_level i;
      delivered = false;
      live_charge = pos 0;
      records = [];
    } in
    if is_auto i.op && not (open_level i)
    then refuse unattended_closed [] out
    else if is_auto i.op && i.is_human_takeover
    then refuse human_takeover [] out
    else by_op i.op i out
