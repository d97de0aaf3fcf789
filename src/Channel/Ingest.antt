-- ===== src/Channel/Ingest.antt =====
-- `SaveChannelGrant`, `RevokeChannelGrant`, `SetChannelFloor` and `IngestChannelEvent` of
-- server/internal/store/channel_interaction.go, on the rows of the tables. The ids that a call draws
-- are arguments. A statement that fails leaves the state as it was, since its transaction is
-- rolled back.
pub mod Transaction
use leads_engine.Base.{
  Bool, true, false, ◌&&◌, ◌||◌, not, Option, none, some, String, ◌==◌, List, [], ◌∷◌,
  if◌then◌else◌, Result, ok, err,
}
use leads_engine.Channel.{Grant, Event, Stored, Input, Refusal, Decision}
use leads_engine.Channel.Admit.{admit}
use leads_engine.Channel.Rows.{
  GrantRow, InteractionRow, CandidateRow, CandidateStatus, candidate_open, candidate_withdrawn,
  FloorRow, State, join, channel_token, load_grant, upsert_grant, mark_revoked, load_prior,
  insert_interaction, change_interaction,
}
use leads_engine.Channel.Rows.Candidates.{
  insert_candidate, withdraw, candidate_status, load_floor, upsert_floor, insert_floor,
}

-- `ChannelGrantIn`
pub record GrantIn : Type 0 where
  pub provider : String
  pub account_id : String
  pub app_id : String
  pub subject_ns : String
  pub message_ns : String
  pub post_ns : String
  pub capabilities : List String

-- `ChannelEventIn`
pub record EventIn : Type 0 where
  pub event : Event
  pub want_reply : Bool
  pub human_processed : Bool

pub data IngestRefusal : Type 0 where
  other_tenant unknown_grant : IngestRefusal
  by_admit : Refusal → IngestRefusal

-- `ChannelIngestResult`
pub record IngestResult : Type 0 where
  pub refusal : Option IngestRefusal
  pub interaction_id : String
  pub candidate_id : String
  pub candidate_status : Option CandidateStatus
  pub idempotent : Bool
  pub auto_reach : Bool
  pub phone_marketing : Bool
  pub sms_marketing : Bool
  pub reply_allowed : Bool
  pub reply_refusal : Option Refusal
  pub delivered : Bool
  pub verification : String

unfoldable pub save_grant : String → GrantIn → State → Option State
unfolding channel_token join upsert_grant
save_grant tenant i s =
    if tenant == ""
      || not (channel_token i.provider 64)
      || not (channel_token i.account_id 128)
      || not (channel_token i.app_id 64)
    then none
    else some (record s {
      grants =
          upsert_grant
            (record {
              tenant_id = tenant;
              provider = i.provider;
              account_id = i.account_id;
              app_id = i.app_id;
              subject_ns = i.subject_ns;
              message_ns = i.message_ns;
              post_ns = i.post_ns;
              capabilities = join i.capabilities;
              is_revoked = false;
            })
            s.grants;
    })

unfoldable pub revoke_grant : String → String → String → State → Option State
unfolding mark_revoked
revoke_grant tenant provider account s =
    let (grants, found) = mark_revoked tenant provider account s.grants in
    if found then some (record s { grants = grants }) else none

abbrev is_holder : String → Bool
is_holder holder = holder == "leads_bot" || holder == "matrix_bot" || holder == "human"

unfoldable pub set_floor : String → String → String → String → String → State → Option State
unfolding upsert_floor
set_floor tenant provider account subject holder s =
    if not (is_holder holder)
    then none
    else some (record s {
      floors =
          upsert_floor
            (record {
              tenant_id = tenant;
              provider = provider;
              account_id = account;
              subject_id = subject;
              holder = holder;
            })
            s.floors;
    })

abbrev pub new_interaction : String → String → EventIn → Decision → InteractionRow
new_interaction id tenant i d = record {
  id = id;
  tenant_id = tenant;
  provider = i.event.provider;
  account_id = i.event.account_id;
  app_id = i.event.app_id;
  event_id = i.event.event_id;
  kind = i.event.kind;
  subject_id = i.event.subject_id;
  nickname = i.event.nickname;
  phone = i.event.phone;
  body = i.event.text;
  text_sha256 = d.text_sha256;
  explicit_intent = i.event.explicit_intent;
  purpose = i.event.purpose;
  is_retracted = d.retract;
  score = i.event.score;
  channel_contact = d.channel_contact;
  phone_marketing = d.phone_marketing;
  sms_marketing = d.sms_marketing;
  auto_reach = false;
  receipt_human = i.human_processed;
  candidate_id = "";
}

abbrev pub edited : Event → Decision → InteractionRow → InteractionRow
edited e d x = record x {
  body = e.text;
  text_sha256 = d.text_sha256;
  explicit_intent = e.explicit_intent;
  purpose = e.purpose;
  score = e.score;
}

-- The interactions after the decision.
unfoldable pub put_interaction :
    String → String → EventIn → Decision → List InteractionRow → Option (List InteractionRow)
unfolding insert_interaction change_interaction
put_interaction fresh tenant i d rows =
    if d.create_interaction
    then insert_interaction (new_interaction fresh tenant i d) rows
    else if d.update
    then some (change_interaction d.interaction_id tenant (edited i.event d) rows)
    else if d.retract
    then some
        (change_interaction d.interaction_id tenant (λ x. record x { is_retracted = true }) rows)
    else some rows

abbrev pub new_candidate : String → String → String → Event → CandidateRow
new_candidate id tenant interaction e = record {
  id = id;
  tenant_id = tenant;
  interaction_id = interaction;
  provider = e.provider;
  account_id = e.account_id;
  event_id = e.event_id;
  subject_id = e.subject_id;
  purpose = e.purpose;
  status = candidate_open;
}

-- What the transaction has written of the candidates.
pub record CandidateStep : Type 0 where
  pub interactions : List InteractionRow
  pub candidates : List CandidateRow
  pub candidate_id : String
  pub status : Option CandidateStatus

unfoldable pub put_candidate :
    String
    → String
    → String
    → Event
    → Decision
    → List InteractionRow
    → List CandidateRow
    → Option CandidateStep
unfolding insert_candidate change_interaction withdraw candidate_status
put_candidate fresh tenant interaction e d interactions candidates =
    let same : Option CandidateStatus → CandidateStep = λ status. record {
      interactions = interactions;
      candidates = candidates;
      candidate_id = d.candidate_id;
      status = status;
    } in
    if d.create_candidate
    then elim (insert_candidate (new_candidate fresh tenant interaction e) candidates) [
      | none ↦ none
      | some rows ↦ some (record {
        interactions =
            change_interaction interaction tenant (λ x. record x { candidate_id = fresh })
              interactions;
        candidates = rows;
        candidate_id = fresh;
        status = some candidate_open;
      })
    ]
    else if d.withdraw_candidate
    then some (record (same (some candidate_withdrawn)) {
      candidates = withdraw d.candidate_id tenant candidates;
    })
    else if d.candidate_id == ""
    then some (same none)
    else elim (candidate_status d.candidate_id tenant candidates) [
      | none ↦ none
      | some status ↦ some (same (some status))
    ]

unfoldable pub put_floor :
    String → Event → Decision → String → List FloorRow → Option (List FloorRow)
unfolding insert_floor
put_floor tenant e d floor rows =
    if d.reply_allowed && floor == ""
    then insert_floor
        (record {
          tenant_id = tenant;
          provider = e.provider;
          account_id = e.account_id;
          subject_id = e.subject_id;
          holder = "leads_bot";
        })
        rows
    else some rows
