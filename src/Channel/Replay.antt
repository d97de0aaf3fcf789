-- ===== src/Channel/Replay.antt =====
-- An event that is delivered again.
pub mod Settles
use leads_engine.Base.{
  Bool, true, false, ◌≡◌, ◌⊎◌, inl, inr, ◌&&◌, ◌||◌, not, Option, none, some, String, ◌==◌, List,
  [], ◌∷◌, if◌then◌else◌, refl, sym, ap, ◌∙◌, subst, arith, eq_iff, eq_refl, Bool-cases,
  Option-cases, some-injective, blank, elem,
}
use leads_engine.Channel.{Grant, Event, Stored, Input, Refusal, Decision}
use leads_engine.Channel.Admit.{
  admit, refusal_of, bare, accepted, retracting, keeping, explicit_sales, decide_reply,
}
use leads_engine.Channel.Rows.{
  GrantRow, InteractionRow, CandidateRow, FloorRow, State, load_grant, load_prior, event_is,
  interaction_taken, insert_interaction, change_interaction,
}
use leads_engine.Channel.Rows.Candidates.{
  candidate_taken, insert_candidate, withdraw, candidate_status, load_floor, floor_taken,
  insert_floor,
}
use leads_engine.Channel.Ingest.{
  EventIn, IngestResult, put_interaction, new_interaction, edited, put_candidate, new_candidate,
  CandidateStep, put_floor,
}
use leads_engine.Channel.Ingest.Transaction.{
  admit_input, store_decision, decision_of, ingest_granted, ingest, Ingested,
}

-- The interaction that is kept for the event.
unfoldable pub first_row :
    String → String → String → String → List InteractionRow → Option InteractionRow
first_row tenant provider account event [] = none
first_row tenant provider account event (x ∷ rows) =
    if event_is tenant provider account event x
    then some x
    else first_row tenant provider account event rows

abbrev pub stored_of : InteractionRow → Stored
stored_of x = record {
  interaction_id = x.id;
  candidate_id = x.candidate_id;
  text_sha256 = x.text_sha256;
  is_retracted = x.is_retracted;
}

abbrev pub kept_of : Option InteractionRow → Option Stored
kept_of none = none
kept_of (some x) = some (stored_of x)

module _ (tenant provider account event : String) where
  abbrev pub row : List InteractionRow → Option InteractionRow
  row rows = first_row tenant provider account event rows

  pub load_prior-first_row :
      (rows : List InteractionRow)
      → load_prior tenant provider account event rows ≡ kept_of (row rows)
  unfolding load_prior first_row
  load_prior-first_row [] = refl
  load_prior-first_row (x ∷ rows) = ground (arith, load_prior-first_row rows)

  -- A change that keeps the key of a row is found in the changed rows.
  pub first_row-change :
      (id : String) (f : InteractionRow → InteractionRow) (rows : List InteractionRow)
      (x : InteractionRow)
      → ((y : InteractionRow)
          → event_is tenant provider account event (f y) ≡ event_is tenant provider account event y)
      → row rows ≡ some x
      → x.id ≡ id
      → row (change_interaction id tenant f rows) ≡ some (f x)
  unfolding change_interaction first_row
  first_row-change id f [] x keeps e same = absurd (ground arith)
  first_row-change id f (y ∷ rows) x keeps e same =
      let kept = keeps y in
      elim (Bool-cases (event_is tenant provider account event y)) [
        | inl hit ↦
            let one : y ≡ x = some-injective (rw hit at e) in
            let named = eq_iff y.id id in
            let id_same = ap (λ (z : InteractionRow). z.id) one ∙ same in
            let changed : change_interaction id tenant f (y ∷ rows)
                ≡ f y ∷ change_interaction id tenant f rows =
              ground arith in
            ap row changed ∙ (rw (kept ∙ hit) (ap (λ z. some (f z)) one))
        | inr miss ↦
            let later = first_row-change id f rows x keeps (rw miss at e) same in
            elim (Bool-cases (y.id == id && y.tenant_id == tenant)) [
              | inl there ↦ rw there (rw (kept ∙ miss) later)
              | inr other ↦ rw other (rw miss later)
            ]
      ]

-- Marking twice is marking once.
abbrev pub marked : InteractionRow → InteractionRow
marked x = record x { is_retracted = true }

pub change_interaction-again :
    (id tenant : String) (rows : List InteractionRow)
    → change_interaction id tenant marked (change_interaction id tenant marked rows)
      ≡ change_interaction id tenant marked rows
unfolding change_interaction
change_interaction-again id tenant [] = refl
change_interaction-again id tenant (x ∷ rows) =
    ground (arith, change_interaction-again id tenant rows)

-- A new row's id is no other row's.
pub change_interaction-fresh :
    (new : InteractionRow) (tenant : String) (rows : List InteractionRow)
    → interaction_taken new rows ≡ false
    → change_interaction new.id tenant marked rows ≡ rows
unfolding change_interaction interaction_taken
change_interaction-fresh new tenant [] free = refl
change_interaction-fresh new tenant (x ∷ rows) free =
    ground (arith, change_interaction-fresh new tenant rows)

-- The kept row answers the event: the same text, or retracted like the event.
abbrev pub Answers : (String → String) → Event → InteractionRow → Type 0
Answers sha256 e x =
    ((e.is_retracted ≡ false) × (x.text_sha256 ≡ sha256 e.text))
    ⊎ ((e.is_retracted ≡ true) × (x.is_retracted ≡ true))

-- A decision that writes nothing, except that it marks a retraction.
abbrev Idle : Decision → InteractionRow → Type 0
Idle d x =
    (d.create_interaction ≡ false)
    × (d.update ≡ false)
    × (d.create_candidate ≡ false)
    × (d.withdraw_candidate ≡ false)
    × (d.interaction_id ≡ x.id)

admit-Idle :
    (sha256 : String → String) (i : Input) (x : InteractionRow)
    → i.prior ≡ some (stored_of x)
    → Answers sha256 i.event x
    → (admit sha256 i).is_ok ≡ true
    → Idle (admit sha256 i) x
unfolding admit bare accepted retracting keeping
admit-Idle sha256 i x kept answers good = elim (Option-cases (refusal_of i)) [
  | inr (r, e) ↦ absurd (ground arith)
  | inl e ↦ elim answers [
    | inl (live, same) ↦
        let text = eq_iff x.text_sha256 (sha256 i.event.text) in
        (ground arith, ground arith, ground arith, ground arith, ground arith)
    | inr (gone, old) ↦ (ground arith, ground arith, ground arith, ground arith, ground arith)
  ]
]

pub admit-reply :
    (sha256 : String → String) (i : Input)
    → (admit sha256 i).is_ok ≡ true
    → (admit sha256 i).reply_allowed ≡ (decide_reply i).0
unfolding admit bare accepted retracting keeping
admit-reply sha256 i good = elim (Option-cases (refusal_of i)) [
  | inr (r, e) ↦ absurd (ground arith)
  | inl e ↦ elim (Option-cases i.prior) [ inl n ↦ ground arith | inr (p, f) ↦ ground arith ]
]

-- The store keeps the state where the decision is idle and the floor is taken or not asked for.
store_decision-Idle :
    (ix clc tenant : String) (i : EventIn) (floor : String) (d : Decision) (s : State)
    (x : InteractionRow)
    → Idle d x
    → (d.reply_allowed && floor == "") ≡ false
    → (d.retract ≡ true → change_interaction x.id tenant marked s.interactions ≡ s.interactions)
    → (store_decision ix clc tenant i floor d s).0 ≡ s
unfolding store_decision put_interaction put_candidate put_floor
store_decision-Idle ix clc tenant i floor d s x
      (no_create, no_update, no_candidate, no_withdraw, same) quiet kept =
    let put : put_interaction ix tenant i d s.interactions ≡ some s.interactions =
      elim (Bool-cases d.retract) [
        | inr e ↦ ground arith
        | inl e ↦
            let stays = kept e in
            let found =
              ap (λ id. change_interaction id tenant marked s.interactions) same ∙ stays in
            ground arith
      ] in
    elim (Option-cases (candidate_status d.candidate_id tenant s.candidates)) [
      | inl n ↦ ground arith
      | inr (status, e) ↦ ground arith
    ]

-- The tables answer the event: the row is there, and a reply would not take the floor again.
abbrev pub Settled : (String → String) → String → EventIn → Grant → State → Type 0
Settled sha256 tenant i g s =
    (x : InteractionRow) × (first_row tenant i.event.provider i.event.account_id i.event.event_id
        s.interactions
      ≡ some x)
    × Answers sha256 i.event x
    × (i.event.is_retracted ≡ true
        → change_interaction x.id tenant marked s.interactions ≡ s.interactions)
    × (((decide_reply (
            admit_input g i none (
              load_floor tenant i.event.provider i.event.account_id i.event.subject_id s.floors))).0
          && load_floor tenant i.event.provider i.event.account_id i.event.subject_id s.floors
            == "")
        ≡ false)

admit-retract :
    (sha256 : String → String) (i : Input)
    → (admit sha256 i).retract ≡ true
    → i.event.is_retracted ≡ true
unfolding admit bare accepted retracting keeping
admit-retract sha256 i e = elim (Option-cases (refusal_of i)) [
  | inr (r, f) ↦ absurd (ground arith)
  | inl f ↦ elim (Option-cases i.prior) [ inl n ↦ ground arith | inr (p, g) ↦ ground arith ]
]

pub ingest_granted-Settled :
    (sha256 : String → String) (ix clc tenant : String) (i : EventIn) (g : Grant) (s : State)
    → Settled sha256 tenant i g s
    → (ingest_granted sha256 ix clc tenant i g s).0 ≡ s
unfolding ingest_granted decision_of admit_input decide_reply
ingest_granted-Settled sha256 ix clc tenant i g s (x, found, answers, stays, quiet) =
    let e = i.event in
    let d = decision_of sha256 tenant i g s in
    let floor = load_floor tenant e.provider e.account_id e.subject_id s.floors in
    let prior = load_prior tenant e.provider e.account_id e.event_id s.interactions in
    let input = admit_input g i prior floor in
    let kept : prior ≡ some (stored_of x) =
      load_prior-first_row tenant e.provider e.account_id e.event_id s.interactions
      ∙ ap kept_of found in
    elim (Bool-cases d.is_ok) [
      | inr n ↦ ground arith
      | inl good ↦
          let idle = admit-Idle sha256 input x kept answers good in
          let reply : d.reply_allowed ≡ (decide_reply input).0 = admit-reply sha256 input good in
          let done =
            store_decision-Idle ix clc tenant i floor d s x idle (ground arith)
              (λ r. stays (admit-retract sha256 input r)) in
          ground arith
    ]
