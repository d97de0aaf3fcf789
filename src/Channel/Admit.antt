-- ===== src/Channel/Admit.antt =====
-- `Admit` of server/internal/channelix/admit.go. The SHA-256 of a text is an argument.
use Prim.Native.String.{◌++◌}
use leads_engine.Base.{
  Bool, true, false, ◌&&◌, ◌||◌, not, Option, none, some, String, ◌==◌, [], if◌then◌else◌, elem,
  blank,
}
use leads_engine.Channel.{
  Event, Stored, Input, Refusal, capability_missing, forged_tenant, forged_source, speaker_conflict,
  permission_revoked, Decision,
}

abbrev pub sales_inquiry : String
sales_inquiry = "sales_inquiry"

-- `dedupKey`
abbrev pub dedup_key_of : String → String → String → String → String
dedup_key_of tenant provider account event =
    tenant ++ ("/" ++ (provider ++ ("/" ++ (account ++ ("/" ++ event)))))

-- `capForKind`
unfoldable pub cap_for_kind : String → String
cap_for_kind kind =
    if kind == "comment"
    then "comment.read"
    else if kind == "direct_message"
    then "message.read"
    else ""

-- `explicitSales`
unfoldable pub explicit_sales : Event → Bool
explicit_sales e = e.explicit_intent && e.purpose == sales_inquiry

-- `decideReply`
unfoldable pub decide_reply : Input → Bool × Option Refusal
decide_reply i =
    if not i.want_reply
    then (false, none)
    else if not (elem "reply" i.grant.capabilities)
    then (false, some capability_missing)
    else if not (i.floor == "") && not (i.floor == "leads_bot")
    then (false, some speaker_conflict)
    else (true, none)

-- What `Admit` refuses.
unfoldable pub refusal_of : Input → Option Refusal
unfolding cap_for_kind
refusal_of i =
    let g = i.grant in
    let e = i.event in
    let need = cap_for_kind e.kind in
    if g.is_revoked
    then some permission_revoked
    else if blank e.target_tenant_id || not (e.target_tenant_id == g.tenant_id)
    then some forged_tenant
    else if not (e.provider == g.provider)
        || not (e.account_id == g.account_id)
        || not (e.app_id == g.app_id)
        || not (e.subject_ns == g.subject_ns)
        || not (e.message_ns == g.message_ns)
        || not (e.post_ns == g.post_ns)
    then some forged_source
    else if need == "" || not (elem need g.capabilities)
    then some capability_missing
    else none

module _ (sha256 : String → String) where
  -- The decision with only the fields that are set before any check.
  unfoldable pub bare : Input → Decision
  bare i = record {
    is_ok = false;
    refusal = none;
    dedup_key = dedup_key_of i.grant.tenant_id i.grant.provider i.grant.account_id i.event.event_id;
    interaction_id = "";
    candidate_id = "";
    text_sha256 = sha256 i.event.text;
    create_interaction = false;
    update = false;
    create_candidate = false;
    idempotent = false;
    retract = false;
    withdraw_candidate = false;
    channel_contact = false;
    phone_marketing = false;
    sms_marketing = false;
    auto_reach = false;
    reply_allowed = false;
    reply_refusal = none;
    delivered = false;
    human_processed = false;
    verification = "unverified";
    live_providers = [];
  }

  -- After the checks.
  unfoldable pub accepted : Input → Decision
  unfolding bare decide_reply
  accepted i =
      let has_phone = not (blank i.event.phone) in
      record (bare i) {
        is_ok = true;
        channel_contact = true;
        phone_marketing = has_phone && i.event.phone_marketing_consent;
        sms_marketing = has_phone && i.event.sms_marketing_consent;
        human_processed = i.human_processed;
        reply_allowed = (decide_reply i).0;
        reply_refusal = (decide_reply i).1;
      }

  -- The event was retracted.
  unfoldable pub retracting : Decision → Option Stored → Decision
  retracting d none = record d { retract = true; create_interaction = true }
  retracting d (some p) = record d {
    retract = true;
    interaction_id = p.interaction_id;
    candidate_id = p.candidate_id;
    withdraw_candidate = not (p.candidate_id == "") && not p.is_retracted;
    idempotent = p.is_retracted;
  }

  unfoldable pub keeping : Decision → Event → Option Stored → Decision
  unfolding explicit_sales
  keeping d e none = record d { create_interaction = true; create_candidate = explicit_sales e }
  keeping d e (some p) =
      if p.text_sha256 == d.text_sha256
      then record d {
        interaction_id = p.interaction_id;
        candidate_id = p.candidate_id;
        idempotent = true;
      }
      else record d {
        interaction_id = p.interaction_id;
        candidate_id = p.candidate_id;
        update = true;
        create_candidate = p.candidate_id == "" && explicit_sales e;
      }

  unfoldable pub admit : Input → Decision
  unfolding accepted bare retracting keeping refusal_of
  admit i = elim (refusal_of i) [
    | some r ↦ record (bare i) { refusal = some r }
    | none ↦
        if i.event.is_retracted
        then retracting (accepted i) i.prior
        else keeping (accepted i) i.event i.prior
  ]
