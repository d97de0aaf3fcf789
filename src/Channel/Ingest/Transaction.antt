-- ===== src/Channel/Ingest/Transaction.antt =====
-- `IngestChannelEvent` of server/internal/store/channel_interaction.go, and runs of its calls.
use leads_engine.Base.{false, not, Option, none, some, String, ◌==◌, List, [], ◌∷◌, if◌then◌else◌}
use leads_engine.Channel.{Grant, Stored, Input, Decision}
use leads_engine.Channel.Admit.{admit}
use leads_engine.Channel.Rows.{CandidateStatus, State, load_grant, load_prior}
use leads_engine.Channel.Rows.Candidates.{load_floor}
use leads_engine.Channel.Ingest.{
  GrantIn, EventIn, IngestRefusal, other_tenant, unknown_grant, by_admit, IngestResult, save_grant,
  revoke_grant, set_floor, put_interaction, put_candidate, put_floor,
}

-- The answer without a decision.
abbrev refused : IngestRefusal → IngestResult
refused r = record {
  refusal = some r;
  interaction_id = "";
  candidate_id = "";
  candidate_status = none;
  idempotent = false;
  auto_reach = false;
  phone_marketing = false;
  sms_marketing = false;
  reply_allowed = false;
  reply_refusal = none;
  delivered = false;
  verification = "unverified";
}

abbrev decided :
    Decision → Option IngestRefusal → String → String → Option CandidateStatus → IngestResult
decided d r interaction candidate status = record {
  refusal = r;
  interaction_id = interaction;
  candidate_id = candidate;
  candidate_status = status;
  idempotent = d.idempotent;
  auto_reach = false;
  phone_marketing = d.phone_marketing;
  sms_marketing = d.sms_marketing;
  reply_allowed = d.reply_allowed;
  reply_refusal = d.reply_refusal;
  delivered = false;
  verification = "unverified";
}

-- What `Admit` is given.
unfoldable pub admit_input : Grant → EventIn → Option Stored → String → Input
admit_input g i prior floor = record {
  grant = g;
  event = i.event;
  prior = prior;
  floor = floor;
  want_reply = i.want_reply;
  human_processed = i.human_processed;
}

-- A step of the store: the state, and the answer unless a statement failed.
abbrev pub Ingested : Type 0
Ingested = State × Option IngestResult

-- The transaction. `ix` and `clc` are the ids that are drawn.
unfoldable pub store_decision :
    String → String → String → EventIn → String → Decision → State → Ingested
unfolding put_interaction put_candidate put_floor
store_decision ix clc tenant i floor d s =
    let id = if d.create_interaction then ix else d.interaction_id in
    elim (put_interaction ix tenant i d s.interactions) [
      | none ↦ (s, none)
      | some rows ↦ elim (put_candidate clc tenant id i.event d rows s.candidates) [
        | none ↦ (s, none)
        | some step ↦ elim (put_floor tenant i.event d floor s.floors) [
          | none ↦ (s, none)
          | some floors ↦ (
            record s {
              interactions = step.interactions;
              candidates = step.candidates;
              floors = floors;
            },
            some (decided d none id step.candidate_id step.status),
          )
        ]
      ]
    ]

module _ (sha256 : String → String) where
  unfoldable pub decision_of : String → EventIn → Grant → State → Decision
  unfolding admit admit_input load_prior load_floor
  decision_of tenant i g s =
      let e = i.event in
      admit sha256 (
        admit_input g i (load_prior tenant e.provider e.account_id e.event_id s.interactions)
          (load_floor tenant e.provider e.account_id e.subject_id s.floors))

  unfoldable pub ingest_granted : String → String → String → EventIn → Grant → State → Ingested
  unfolding decision_of store_decision load_floor
  ingest_granted ix clc tenant i g s =
      let e = i.event in
      let d = decision_of tenant i g s in
      if d.is_ok
      then store_decision ix clc tenant i
          (load_floor tenant e.provider e.account_id e.subject_id s.floors) d s
      else (
        s,
        some (decided d (elim d.refusal [ none ↦ none | some r ↦ some (by_admit r) ]) "" "" none),
      )

  unfoldable pub ingest : String → String → String → EventIn → State → Ingested
  unfolding ingest_granted load_grant
  ingest ix clc tenant i s =
      let e = i.event in
      if not (e.target_tenant_id == tenant)
      then (s, some (refused other_tenant))
      else elim (load_grant tenant e.provider e.account_id s.grants) [
        | none ↦ (s, some (refused unknown_grant))
        | some g ↦ ingest_granted ix clc tenant i g s
      ]

abbrev or_same : State → Option State → State
or_same s none = s
or_same s (some s') = s'

pub data Call : Type 0 where
  call_save : String → GrantIn → Call
  call_revoke : String → String → String → Call
  call_floor : String → String → String → String → String → Call
  call_ingest : String → String → String → EventIn → Call

module _ (sha256 : String → String) where
  unfoldable pub after : State → Call → State
  unfolding save_grant revoke_grant set_floor ingest
  after s (call_save tenant i) = or_same s (save_grant tenant i s)
  after s (call_revoke tenant provider account) = or_same s (revoke_grant tenant provider account s)
  after s (call_floor tenant provider account subject holder) =
      or_same s (set_floor tenant provider account subject holder s)
  after s (call_ingest ix clc tenant i) = (ingest sha256 ix clc tenant i s).0

  unfoldable pub run : State → List Call → State
  unfolding after
  run s [] = s
  run s (c ∷ calls) = run (after s c) calls
