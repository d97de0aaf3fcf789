-- ===== src/CraftHandoff/Service.antt =====
-- The methods of `Service` in server/internal/crafthandoff/service.go; the mutex makes each one
-- step. `digest` stands for the hexadecimal of the first 16 bytes of SHA-256.
pub mod Tenants
pub mod Safe
pub mod Kept
pub mod Replay
pub mod Records
pub mod Drafts
pub mod Written
pub mod Examples
use Prim.Native.String.{◌++◌}
use leads_engine.Base.{
  ℕ, zero, suc, ℤ, pos, negsuc, Bool, true, false, ◌&&◌, ◌||◌, not, Option, none, some, String,
  ◌==◌, List, [], ◌∷◌, if◌then◌else◌, Result, ok, err, ◌>>=◌, trim_space, blank, elem, ltz, itoa,
  lookup, insert, size, nul, Dict,
}
use leads_engine.CraftHandoff.{
  Error, invalid, forbidden_fact, unauthorized_portrait, cross_tenant, unknown_target,
  payer_required, permission_revoked, target_failed, empty_draft, draft_not_found, Fact,
  SaveRequest, Draft, Input, Payload, Cost, Handed, State,
}
use leads_engine.CraftHandoff.Material.{
  known_targets, looks_like_contact, canonical_id, contact_material, selected_copy,
}

-- A method's new state, and its answer.
abbrev pub Answer : Type 0 → Type 0
Answer A = State × Result Error A

abbrev model_incomplete : String
model_incomplete = "真实模型未完成"

-- `strconv.Itoa` on any integer.
unfoldable pub itoa_int : ℤ → String
itoa_int (pos n) = itoa n
itoa_int (negsuc n) = "-" ++ itoa (suc n)

-- `Cost.Label`
unfoldable pub cost_label : Cost → String
unfolding itoa_int
cost_label none = "unknown"
cost_label (some minor) = itoa_int minor

unfoldable pub seal_draft : Draft → Draft
seal_draft d = record d {
  sent = false;
  published = false;
  marketing_license = false;
  reply_bot_started = false;
  editable_by_hand = true;
  model_stamp = model_incomplete;
  status = "draft_saved";
}

unfoldable pub seal : Handed → Handed
seal h = record h {
  fixture_ref = "fixture:" ++ (h.target ++ (":" ++ h.id));
  fixture = true;
  live_session = false;
  project_count = 1;
  generation_ok = true;
  sent = false;
  published = false;
  marketing_license = false;
  model_stamp = model_incomplete;
  provider_calls = 0;
  charge_writes = 0;
  billing_passed = false;
  service_provider = "NOT_VERIFIED";
  billing = "NOT_VERIFIED";
  production = "NOT_AUTHORIZED";
  human_adoption = "UNKNOWN";
  status = "fixture_recorded";
}

unfoldable pub handoff_key : String → String → ℤ → String → String
handoff_key tenant lead version target =
    tenant ++ (nul ++ (lead ++ (nul ++ (itoa_int version ++ (nul ++ target)))))

unfoldable pub projects : State → ℕ
projects s = size s.handoffs

-- `prev, ok := s.leads[leadID]; ok && prev != tenantID`
unfoldable pub is_foreign : State → String → String → Bool
is_foreign s tenant lead = elim (lookup lead s.leads) [
  | none ↦ false
  | some prev ↦ not (prev == tenant)
]

unfoldable pub bind : State → String → String → Result Error State
unfolding is_foreign
bind s tenant lead =
    if is_foreign s tenant lead
    then err cross_tenant
    else ok (record s { leads = insert lead tenant s.leads })

unfoldable pub put_draft : State → String → Draft → State
put_draft s lead d = record s { drafts = insert lead d s.drafts }

unfoldable pub new_draft : SaveRequest → List Fact → String → Draft
unfolding seal_draft
new_draft req facts body = seal_draft (record {
  tenant_id = req.tenant_id;
  lead_id = req.lead_id;
  version = req.version;
  body = body;
  facts = facts;
  sent = false;
  published = false;
  marketing_license = false;
  reply_bot_started = false;
  editable_by_hand = false;
  model_stamp = "";
  status = "";
})

unfoldable pub store_copy : State → SaveRequest → List Fact → String → Answer Draft
unfolding put_draft
store_copy s req facts body = elim (bind s req.tenant_id req.lead_id) [
  | err e ↦ (s, err e)
  | ok bound ↦
      (put_draft bound req.lead_id (new_draft req facts body), ok (new_draft req facts body))
]

unfoldable pub save_draft : State → SaveRequest → Answer Draft
save_draft s req =
    if not (canonical_id req.tenant_id) || not (canonical_id req.lead_id) || ltz req.version (pos 1)
    then (s, err invalid)
    else elim (selected_copy req.facts) [
      | err e ↦ (s, err e)
      | ok (facts, body) ↦ store_copy s req facts body
    ]

-- The saved draft, for its own tenant.
unfoldable pub own_draft : State → String → String → Result Error Draft
own_draft s tenant lead =
    if is_foreign s tenant lead then err cross_tenant else elim (lookup lead s.drafts) [
      | none ↦ err draft_not_found
      | some d ↦ if not (d.tenant_id == tenant) then err cross_tenant else ok d
    ]

unfoldable pub draft : State → String → String → Result Error Draft
draft s tenant lead =
    if not (canonical_id tenant) || not (canonical_id lead)
    then err invalid
    else own_draft s tenant lead

unfoldable pub edited : Draft → String → Draft
unfolding seal_draft
edited d body = seal_draft (record d { body = body })

unfoldable pub edit_by_hand : State → String → String → String → Answer Draft
unfolding put_draft
edit_by_hand s tenant lead body =
    if not (canonical_id tenant) || not (canonical_id lead)
    then (s, err invalid)
    else if blank body
    then (s, err empty_draft)
    else elim (own_draft s tenant lead) [
      | err e ↦ (s, err e)
      | ok d ↦ (put_draft s lead (edited d (trim_space body)), ok (edited d (trim_space body)))
    ]

unfoldable pub revoke : State → String → String → Answer (Unit {0})
revoke s tenant lead =
    if not (canonical_id tenant) || not (canonical_id lead)
    then (s, err invalid)
    else elim (bind s tenant lead) [
      | err e ↦ (s, err e)
      | ok bound ↦ (record bound { revoked = insert lead true bound.revoked }, ok tt)
    ]

-- The checks that `Handoff` makes before it takes the lock.
unfoldable pub input_refusal : Input → Option Error
input_refusal i =
    if not (canonical_id i.tenant_id) || not (canonical_id i.lead_id) || ltz i.version (pos 1)
    then some invalid
    else if not (elem i.target known_targets)
    then some unknown_target
    else if blank i.payer_ref
    then some payer_required
    else if looks_like_contact i.payer_ref || contact_material i
    then some forbidden_fact
    else if not (canonical_id i.payer_ref)
    then some invalid
    else if not (blank i.portrait) && not i.portrait_authorized
    then some unauthorized_portrait
    else none

unfoldable pub is_revoked : State → String → Bool
is_revoked s lead = elim (lookup lead s.revoked) [ none ↦ false | some b ↦ b ]

unfoldable pub key_of : Input → String
key_of i = handoff_key i.tenant_id i.lead_id i.version i.target

-- Any call of a method that may change the state.
pub data Call : Type 0 where
  call_save : SaveRequest → Call
  call_edit : String → String → String → Call
  call_revoke : String → String → Call
  call_handoff : Input → Call

module _ (digest : String → String) where
  unfoldable pub handoff_id : String → String → ℤ → String → String
  handoff_id tenant lead version target =
      "crh_"
      ++ digest (
          "craft-handoff/v1\n"
          ++ (tenant ++ ("\n" ++ (lead ++ ("\n" ++ (itoa_int version ++ ("\n" ++ target)))))))

  unfoldable pub new_handoff : Input → Handed
  unfolding seal handoff_id
  new_handoff i = seal (record {
    id = handoff_id i.tenant_id i.lead_id i.version i.target;
    tenant_id = i.tenant_id;
    lead_id = i.lead_id;
    version = i.version;
    target = i.target;
    payload = record { source_lead_id = i.lead_id; version = i.version; payer_ref = i.payer_ref };
    fixture_ref = "";
    fixture = false;
    live_session = false;
    project_count = 0;
    generation_ok = false;
    sent = false;
    published = false;
    marketing_license = false;
    model_stamp = "";
    provider_calls = 0;
    charge_writes = 0;
    billing_passed = false;
    cost = i.cost_minor;
    service_provider = "";
    billing = "";
    production = "";
    human_adoption = "";
    status = "";
  })

  -- With the lead bound.
  unfoldable pub handoff_bound : State → Input → Answer Handed
  handoff_bound s i =
      if is_revoked s i.lead_id
      then (s, err permission_revoked)
      else elim (lookup (key_of i) s.handoffs) [
        | some existing ↦ (s, ok (seal existing))
        | none ↦ if i.target_failed then (s, err target_failed) else (
          record s { handoffs = insert (key_of i) (new_handoff i) s.handoffs },
          ok (new_handoff i),
        )
      ]

  unfoldable pub handoff : State → Input → Answer Handed
  handoff s i = elim (input_refusal i) [
    | some e ↦ (s, err e)
    | none ↦ elim (bind s i.tenant_id i.lead_id) [
      | err e ↦ (s, err e)
      | ok bound ↦ handoff_bound bound i
    ]
  ]

  unfoldable pub step : State → Call → State
  step s (call_save req) = (save_draft s req).0
  step s (call_edit tenant lead body) = (edit_by_hand s tenant lead body).0
  step s (call_revoke tenant lead) = (revoke s tenant lead).0
  step s (call_handoff i) = (handoff s i).0

  -- The state after the calls, in their order.
  unfoldable pub run : State → List Call → State
  run s [] = s
  run s (c ∷ calls) = run (step s c) calls
