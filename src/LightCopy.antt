-- ===== src/LightCopy.antt =====
-- server/internal/lightcopy/decide.go: short texts inside a scene, what goes into a later tool's
-- packet, and attempts to open such a tool. `Prompt` is not modelled: it formats a text. A time is
-- the number of nanoseconds since Go's zero time.
pub mod Edits
pub mod Packets
pub mod Examples
use leads_engine.Base.{
  Bool, true, false, ◌&&◌, ◌||◌, not, Option, none, some, String, ◌==◌, List, [], ◌∷◌,
  if◌then◌else◌, ℤ, pos, ltz, eqz, add64, blank, trim_space, contains, elem, Dict, vacant, insert,
  is_nil,
}

pub data Reason : Type 0 where
  model_unavailable placeholder_refused empty_body tenant_mismatch price_expired : Reason
  unauthorized_field fact_missing nothing_selected tool_entry_unavailable : Reason
  open_existing_entry unknown_tool advanced_tool_declined : Reason

pub data Status : Type 0 where
  failed recorded declined refused : Status

pub record Draft : Type 0 where
  pub body : String
  pub origin : String
  pub content_version : ℤ
  pub generated : Bool
  pub sent : Bool
  pub published : Bool
  pub marketing_permitted : Bool
  pub user_confirmed : Bool
  pub live_charge : ℤ

pub record ModelOutput : Type 0 where
  pub from_live_model : Bool
  pub text : String
  pub cost_cents : ℤ

pub record Subject : Type 0 where
  pub kind : String
  pub id : String
  pub tenant_id : String
  pub title : String
  pub activity_ref : String
  pub price_cents : Option ℤ
  pub price_valid_until : ℤ
  pub contact_text : String
  pub sales_note : String
  pub profile : String

-- A value of `Facts`.
pub data Fact : Type 0 where
  words : String → Fact
  cents : ℤ → Fact

pub record Packet : Type 0 where
  pub subject_kind : String
  pub subject_id : String
  pub facts : Dict Fact

pub record Handoff : Type 0 where
  pub id : String
  pub key : String
  pub tool : String
  pub source_kind : String
  pub source_id : String
  pub draft_id : String
  pub content_version : ℤ
  pub facts : Dict Fact
  pub status : Status
  pub reason : Reason
  pub project_created : Bool
  pub regenerated : Bool

pub record HandoffInput : Type 0 where
  pub key : String
  pub tool : String
  pub decline : Bool
  pub entry_configured : Bool
  pub source_kind : String
  pub source_id : String
  pub draft_id : String
  pub content_version : ℤ
  pub facts : Dict Fact
  pub existing : Option Handoff

unfoldable pub is_placeholder : String → Bool
is_placeholder text = contains text "{{" || contains text "}}" || contains text "模板占位"

-- `Generate`
unfoldable pub generate : Draft → ModelOutput → Draft × Option Reason
unfolding is_placeholder trim_space add64
generate current model =
    if not model.from_live_model || blank model.text
    then (current, some model_unavailable)
    else if is_placeholder model.text
    then (current, some placeholder_refused)
    else (
      record current {
        body = trim_space model.text;
        origin = "model";
        generated = true;
        live_charge = model.cost_cents;
        sent = false;
        published = false;
        marketing_permitted = false;
        user_confirmed = false;
        content_version =
            if ltz current.content_version (pos 1)
            then pos 1
            else add64 current.content_version (pos 1);
      },
      none,
    )

-- The version after an edit.
unfoldable pub edited_version : Draft → String → ℤ
unfolding add64
edited_version current body =
    if ltz current.content_version (pos 1)
    then pos 1
    else if not (current.body == body)
    then add64 current.content_version (pos 1)
    else current.content_version

-- `SaveManual`
unfoldable pub save_manual : Draft → String → Draft × Option Reason
unfolding edited_version trim_space
save_manual current body = if trim_space body == "" then (current, some empty_body) else (
  record current {
    body = trim_space body;
    origin = "manual";
    generated = false;
    sent = false;
    published = false;
    marketing_permitted = false;
    user_confirmed = false;
    live_charge = pos 0;
    content_version = edited_version current (trim_space body);
  },
  none,
)

-- `Confirm`
unfoldable pub confirm : Draft → Draft
confirm current = record current {
  user_confirmed = true;
  sent = false;
  published = false;
  marketing_permitted = false;
}

abbrev pub allowed_facts : List String
allowed_facts = "title" ∷ "activity_ref" ∷ "price_cents" ∷ []

abbrev pub forbidden_facts : List String
forbidden_facts =
    "contact_text" ∷ "contact_body" ∷ "sales_note" ∷ "internal_note" ∷ "profile"
    ∷ "auth_scope_snapshot" ∷ []

unfoldable pub all_allowed : List String → Bool
unfolding elem
all_allowed [] = true
all_allowed (key ∷ selected) =
    not (elem key forbidden_facts || not (elem key allowed_facts)) && all_allowed selected

-- One turn of the loop that copies the facts.
unfoldable pub copy_fact : Subject → ℤ → String → Dict Fact → Dict Fact × Option Reason
unfolding insert
copy_fact sub now key facts =
    if key == "title"
    then (if blank sub.title
        then (facts, some fact_missing)
        else (insert "title" (words sub.title) facts, none))
    else if key == "activity_ref"
    then (if blank sub.activity_ref
        then (facts, some fact_missing)
        else (insert "activity_ref" (words sub.activity_ref) facts, none))
    else if key == "price_cents"
    then elim sub.price_cents [
      | none ↦ (facts, some price_expired)
      | some price ↦
          if eqz sub.price_valid_until (pos 0) || not (ltz now sub.price_valid_until)
          then (facts, some price_expired)
          else (insert "price_cents" (cents price) facts, none)
    ]
    else (facts, none)

unfoldable pub copy_facts : Subject → ℤ → List String → Dict Fact → Dict Fact × Option Reason
unfolding copy_fact
copy_facts sub now [] facts = (facts, none)
copy_facts sub now (key ∷ selected) facts = elim (copy_fact sub now key facts).1 [
  | some r ↦ (vacant, some r)
  | none ↦ copy_facts sub now selected (copy_fact sub now key facts).0
]

-- `Project`
unfoldable pub project : String → Subject → List String → ℤ → Packet × Option Reason
unfolding all_allowed copy_facts
project caller sub selected now =
    let empty : Packet = record { subject_kind = sub.kind; subject_id = sub.id; facts = vacant } in
    if caller == "" || not (caller == sub.tenant_id)
    then (empty, some tenant_mismatch)
    else if is_nil selected
    then (empty, some nothing_selected)
    else if not (all_allowed selected)
    then (empty, some unauthorized_field)
    else let (facts, refusal) = copy_facts sub now selected vacant in
      (record empty { facts = facts }, refusal)

abbrev pub known_tools : List String
known_tools = "goboost" ∷ "product_image" ∷ "digital_human" ∷ "aicut" ∷ []

-- The attempt that is stored under the key.
unfoldable pub stored_attempt : HandoffInput → Option Handoff
stored_attempt i = elim i.existing [
  | none ↦ none
  | some h ↦
      if h.key == i.key && not (i.key == "")
      then some (record h { regenerated = false; project_created = false })
      else none
]

abbrev attempt : HandoffInput → Status → Reason → Handoff
attempt i status reason = record {
  id = i.key;
  key = i.key;
  tool = i.tool;
  source_kind = i.source_kind;
  source_id = i.source_id;
  draft_id = i.draft_id;
  content_version = i.content_version;
  facts = i.facts;
  status = status;
  reason = reason;
  project_created = false;
  regenerated = false;
}

-- `OpenHandoff`
unfoldable pub open_handoff : HandoffInput → Handoff
unfolding stored_attempt elem
open_handoff i = elim (stored_attempt i) [
  | some h ↦ h
  | none ↦
      if i.decline
      then attempt i declined advanced_tool_declined
      else if not (elem i.tool known_tools)
      then attempt i refused unknown_tool
      else if not i.entry_configured
      then attempt i failed tool_entry_unavailable
      else attempt i recorded open_existing_entry
]
