-- ===== src/Channel/Examples.antt =====
-- A channel with one grant, a sales inquiry by direct message, and a revocation.
use leads_engine.Base.{
  ◌≡◌, true, false, String, List, [], ◌∷◌, none, some, refl, pos, elem, trim_space, all_chars,
}
use leads_engine.TenantMap.Parse.{split}
use leads_engine.Channel.Admit.{
  cap_for_kind, explicit_sales, decide_reply, refusal_of, bare, accepted, retracting, keeping,
  admit,
}
use leads_engine.Channel.Rows.{
  State, candidate_open, empty, join, channel_token, load_grant, upsert_grant, mark_revoked,
  load_prior, interaction_taken, insert_interaction, change_interaction,
}
use leads_engine.Channel.Rows.Candidates.{
  candidate_taken, insert_candidate, withdraw, candidate_status, load_floor, upsert_floor,
  floor_taken, insert_floor,
}
use leads_engine.Channel.Ingest.{
  GrantIn, EventIn, IngestResult, save_grant, revoke_grant, set_floor, put_interaction,
  put_candidate, put_floor,
}
use leads_engine.Channel.Ingest.Transaction.{
  admit_input, store_decision, decision_of, ingest_granted, ingest, Call, call_save, call_revoke,
  call_ingest, after, run,
}
use leads_engine.Channel.Revoked.{is_shut, Refuses, revoked_grant_final}
use leads_engine.Channel.Invariant.Run.{IsTrue, run-IsTrue}
use leads_engine.Channel.Replay.Settles.Twice.{ingest-ingest}

abbrev grant : GrantIn
grant = record {
  provider = "shop";
  account_id = "acc_1";
  app_id = "app_1";
  subject_ns = "s";
  message_ns = "m";
  post_ns = "p";
  capabilities = "message.read" ∷ "reply" ∷ [];
}

abbrev inquiry : EventIn
inquiry = record {
  event = record {
    target_tenant_id = "tnt_1";
    provider = "shop";
    account_id = "acc_1";
    app_id = "app_1";
    subject_ns = "s";
    message_ns = "m";
    post_ns = "p";
    event_id = "evt_1";
    kind = "direct_message";
    subject_id = "sub_1";
    nickname = "Li";
    phone = "";
    text = "how much";
    explicit_intent = true;
    purpose = "sales_inquiry";
    is_retracted = false;
    score = pos 90;
    phone_marketing_consent = true;
    sms_marketing_consent = false;
  };
  want_reply = true;
  human_processed = false;
}

-- The text stands for its digest.
abbrev digest : String → String
digest text = text

abbrev opening : List Call
opening = call_save "tnt_1" grant ∷ call_ingest "ix_1" "clc_1" "tnt_1" inquiry ∷ []

opened : Unit {0}
unfolding split cap_for_kind explicit_sales decide_reply refusal_of bare accepted retracting keeping
    admit join channel_token load_grant upsert_grant mark_revoked load_prior interaction_taken
    insert_interaction change_interaction candidate_taken insert_candidate withdraw candidate_status
    load_floor upsert_floor floor_taken insert_floor save_grant revoke_grant set_floor
    put_interaction put_candidate put_floor admit_input store_decision decision_of ingest_granted
    ingest after run elem trim_space all_chars
opened = tt

abbrev stored_ids : State → List (String × String)
stored_ids s = elim s.interactions [ [] ↦ [] | x ∷ rows ↦ (x.id, x.candidate_id) ∷ [] ]

stored : stored_ids (run digest empty opening) ≡ ("ix_1", "clc_1") ∷ []
unfolding opened
stored = refl

run-IsTrue_example :
    IsTrue
      (run digest empty (call_save "tnt_1" grant ∷ call_ingest "ix_1" "clc_1" "tnt_1" inquiry ∷ []))
run-IsTrue_example =
    run-IsTrue digest (call_save "tnt_1" grant ∷ call_ingest "ix_1" "clc_1" "tnt_1" inquiry ∷ [])

abbrev closed : State
closed = run digest empty (call_save "tnt_1" grant ∷ call_revoke "tnt_1" "shop" "acc_1" ∷ [])

closed-is_shut : is_shut "tnt_1" "shop" "acc_1" closed.grants ≡ true
unfolding opened
closed-is_shut = refl

revoked_grant_final_example : Refuses (run digest closed (call_save "tnt_1" grant ∷ [])) (
    ingest digest "ix_1" "clc_1" "tnt_1" inquiry (run digest closed (call_save "tnt_1" grant ∷ [])))
revoked_grant_final_example =
    revoked_grant_final digest closed (call_save "tnt_1" grant ∷ []) "ix_1" "clc_1" "tnt_1" inquiry
      closed-is_shut refl

abbrev granted : State
granted = run digest empty (call_save "tnt_1" grant ∷ [])

abbrev answer : IngestResult
answer = record {
  refusal = none;
  interaction_id = "ix_1";
  candidate_id = "clc_1";
  candidate_status = some candidate_open;
  idempotent = false;
  auto_reach = false;
  phone_marketing = false;
  sms_marketing = false;
  reply_allowed = true;
  reply_refusal = none;
  delivered = false;
  verification = "unverified";
}

abbrev settled : State
settled = (ingest digest "ix_1" "clc_1" "tnt_1" inquiry granted).0

delivered : ingest digest "ix_1" "clc_1" "tnt_1" inquiry granted ≡ (settled, some answer)
unfolding opened
delivered = refl

ingest-ingest_example : (ingest digest "ix_2" "clc_2" "tnt_1" inquiry settled).0 ≡ settled
ingest-ingest_example =
    ingest-ingest digest "tnt_1" inquiry "ix_1" "clc_1" "ix_2" "clc_2" granted settled answer
      delivered
