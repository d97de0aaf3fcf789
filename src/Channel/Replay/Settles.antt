-- ===== src/Channel/Replay/Settles.antt =====
-- The rows after the first delivery of an event.
pub mod Twice
use leads_engine.Base.{
  Bool, true, false, ◌≡◌, inl, inr, ◌&&◌, not, Option, none, some, String, ◌==◌, List, ◌∷◌,
  if◌then◌else◌, refl, sym, ap, ◌∙◌, subst, arith, eq_iff, eq_refl, Bool-cases, Option-cases,
  some-injective,
}
use leads_engine.Channel.{Grant, Stored, Input, Decision}
use leads_engine.Channel.Admit.{
  admit, refusal_of, bare, accepted, retracting, keeping, decide_reply,
}
use leads_engine.Channel.Rows.{
  InteractionRow, CandidateRow, FloorRow, State, load_grant, load_prior, interaction_taken,
  insert_interaction, change_interaction,
}
use leads_engine.Channel.Rows.Candidates.{
  candidate_taken, insert_candidate, candidate_status, load_floor, floor_taken, insert_floor,
}
use leads_engine.Channel.Ingest.{
  EventIn, IngestResult, put_interaction, new_interaction, edited, put_candidate, new_candidate,
  CandidateStep, put_floor,
}
use leads_engine.Channel.Ingest.Transaction.{
  admit_input, store_decision, decision_of, ingest_granted, ingest, Ingested,
}
use leads_engine.Channel.Revoked.{ingest_grants}
use leads_engine.Channel.Replay.{
  first_row, stored_of, kept_of, load_prior-first_row, first_row-change, marked,
  change_interaction-again, change_interaction-fresh, Answers, Settled, admit-reply,
  ingest_granted-Settled,
}

module _ (sha256 : String → String) (tenant : String) (i : EventIn) where
  abbrev of_event : List InteractionRow → Option InteractionRow
  of_event rows = first_row tenant i.event.provider i.event.account_id i.event.event_id rows

  -- The rows keep an answer to the event, under the id.
  abbrev pub Kept : String → List InteractionRow → Type 0
  Kept id rows =
      (x : InteractionRow) × (of_event rows ≡ some x)
      × Answers sha256 i.event x
      × (i.event.is_retracted ≡ true → change_interaction x.id tenant marked rows ≡ rows)
      × (x.id ≡ id)

  -- What an accepted decision does, by the row that is there.
  abbrev pub Decides : Option Stored → Decision → Type 0
  Decides prior d =
      (d.text_sha256 ≡ sha256 i.event.text)
      × (d.retract ≡ i.event.is_retracted)
      × ((d.create_candidate && i.event.is_retracted) ≡ false)
      × elim prior [
        | none ↦ d.create_interaction ≡ true
        | some p ↦
            (d.create_interaction ≡ false)
            × (d.interaction_id ≡ p.interaction_id)
            × (d.update ≡ (not i.event.is_retracted && not (p.text_sha256 == sha256 i.event.text)))
      ]

  pub admit-Decides :
      (input : Input) (prior : Option Stored)
      → input.event ≡ i.event
      → input.prior ≡ prior
      → (admit sha256 input).is_ok ≡ true
      → Decides prior (admit sha256 input)
  unfolding admit bare accepted retracting keeping
  admit-Decides input none same kept good = elim (Option-cases (refusal_of input)) [
    | inr (r, e) ↦ absurd (ground arith)
    | inl e ↦ (ground arith, ground arith, ground arith, ground arith)
  ]
  admit-Decides input (some p) same kept good = elim (Option-cases (refusal_of input)) [
    | inr (r, e) ↦ absurd (ground arith)
    | inl e ↦ (ground arith, ground arith, ground arith, (ground arith, ground arith, ground arith))
  ]

  new-Kept :
      (ix : String) (d : Decision) (rows : List InteractionRow)
      → Decides none d
      → interaction_taken (new_interaction ix tenant i d) rows ≡ false
      → Kept ix (new_interaction ix tenant i d ∷ rows)
  unfolding first_row change_interaction
  new-Kept ix d rows (text, retract, candidate, create) free =
      let new = new_interaction ix tenant i d in
      let own_tenant = eq_refl tenant in
      let own_provider = eq_refl i.event.provider in
      let own_account = eq_refl i.event.account_id in
      let own_event = eq_refl i.event.event_id in
      let own_id = eq_refl ix in
      let rest = change_interaction-fresh new tenant rows free in
      (
        new,
        ground arith,
        elim (Bool-cases i.event.is_retracted) [
          | inl gone ↦ inr (gone, retract ∙ gone)
          | inr live ↦ inl (live, text)
        ],
        λ gone.
            let same : marked new ≡ new =
              ap (λ b. record new { is_retracted = b }) (sym (retract ∙ gone)) in
            ground arith,
        refl,
      )

  -- The row that was there, after the decision on it.
  old-Kept :
      (ix : String) (d : Decision) (rows rows' : List InteractionRow) (x : InteractionRow)
      → of_event rows ≡ some x
      → Decides (some (stored_of x)) d
      → put_interaction ix tenant i d rows ≡ some rows'
      → Kept x.id rows'
  unfolding put_interaction
  old-Kept ix d rows rows' x found (text, retract, candidate, (no_create, named, update)) e =
      let find = first_row-change tenant i.event.provider i.event.account_id i.event.event_id in
      let id = named in
      elim (Bool-cases i.event.is_retracted) [
        | inl gone ↦
            let same : change_interaction x.id tenant marked rows ≡ rows' =
              some-injective (
                ap (λ k. some (change_interaction k tenant marked rows)) (sym id) ∙ ground arith) in
            subst (Kept x.id) same (
              marked x,
              find x.id marked rows x (λ y. refl) found refl,
              inr (gone, refl),
              λ _. change_interaction-again x.id tenant rows,
              refl,
            )
        | inr live ↦ elim (Bool-cases (x.text_sha256 == sha256 i.event.text)) [
          | inl equal ↦
              let same : rows ≡ rows' = some-injective (ground arith) in
              subst (Kept x.id) same (
                x,
                found,
                inl (live, (eq_iff x.text_sha256 (sha256 i.event.text)).0 equal),
                λ gone. absurd (ground arith),
                refl,
              )
          | inr other ↦
              let change = edited i.event d in
              let same : change_interaction x.id tenant change rows ≡ rows' = some-injective (
                ap (λ k. some (change_interaction k tenant change rows)) (sym id) ∙ ground arith) in
              subst (Kept x.id) same (
                change x,
                find x.id change rows x (λ y. refl) found refl,
                inl (live, text),
                λ gone. absurd (ground arith),
                refl,
              )
        ]
      ]

  pub put_interaction-Kept :
      (ix : String) (d : Decision) (rows rows' : List InteractionRow)
      → Decides (load_prior tenant i.event.provider i.event.account_id i.event.event_id rows) d
      → put_interaction ix tenant i d rows ≡ some rows'
      → Kept (if d.create_interaction then ix else d.interaction_id) rows'
  unfolding put_interaction insert_interaction
  put_interaction-Kept ix d rows rows' decides e =
      let at =
        load_prior-first_row tenant i.event.provider i.event.account_id i.event.event_id rows in
      elim (Option-cases (of_event rows)) [
        | inl n ↦
            let fresh : Decides none d =
              subst (λ prior. Decides prior d) (at ∙ ap kept_of n) decides in
            let (_, _, _, create) = fresh in
            elim (Bool-cases (interaction_taken (new_interaction ix tenant i d) rows)) [
              | inl taken ↦ absurd (ground arith)
              | inr free ↦
                  let same : new_interaction ix tenant i d ∷ rows ≡ rows' =
                    some-injective (ground arith) in
                  let id : ix ≡ (if d.create_interaction then ix else d.interaction_id) =
                    ground arith in
                  subst (λ k. Kept k rows') id
                    (subst (Kept ix) same (new-Kept ix d rows fresh free))
            ]
        | inr (x, found) ↦
            let old : Decides (some (stored_of x)) d =
              subst (λ prior. Decides prior d) (at ∙ ap kept_of found) decides in
            let (_, _, _, (no_create, named, _)) = old in
            let id : x.id ≡ (if d.create_interaction then ix else d.interaction_id) =
              ground arith in
            subst (λ k. Kept k rows') id (old-Kept ix d rows rows' x found old e)
      ]

  pub put_candidate-Kept :
      (clc id : String) (d : Decision) (rows : List InteractionRow) (candidates : List CandidateRow)
      (step : CandidateStep)
      → ((d.create_candidate && i.event.is_retracted) ≡ false)
      → Kept id rows
      → put_candidate clc tenant id i.event d rows candidates ≡ some step
      → Kept id step.interactions
  unfolding put_candidate insert_candidate
  put_candidate-Kept clc id d rows candidates step only kept e =
      let (x, found, answers, stays, same_id) = kept in
      elim (Bool-cases d.create_candidate) [
        | inl create ↦
            elim (Bool-cases (candidate_taken (new_candidate clc tenant id i.event) candidates)) [
              | inl taken ↦ absurd (ground arith)
              | inr free ↦
                  let named : InteractionRow → InteractionRow =
                    λ y. record y { candidate_id = clc } in
                  let same : change_interaction id tenant named rows ≡ step.interactions =
                    ground arith in
                  subst (Kept id) same (
                    named x,
                    first_row-change tenant i.event.provider i.event.account_id i.event.event_id id
                        named rows x (λ y. refl) found same_id,
                    answers,
                    λ gone. absurd (ground arith),
                    same_id,
                  )
            ]
        | inr keep ↦
            let there = Option-cases (candidate_status d.candidate_id tenant candidates) in
            let same : rows ≡ step.interactions = elim (Bool-cases d.withdraw_candidate) [
              | inl out ↦ ground arith
              | inr stay ↦ elim there [ inl n ↦ ground arith | inr (st, g) ↦ ground arith ]
            ] in
            subst (Kept id) same kept
      ]
