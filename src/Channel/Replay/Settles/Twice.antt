-- ===== src/Channel/Replay/Settles/Twice.antt =====
-- The second delivery of an event.
use leads_engine.Base.{
  Bool, true, false, ◌≡◌, inl, inr, ◌&&◌, none, some, String, ◌==◌, List, ◌∷◌, if◌then◌else◌, refl,
  sym, ap, ◌∙◌, subst, arith, eq_refl, Bool-cases, Option-cases, some-injective,
}
use leads_engine.Channel.{Grant, Decision}
use leads_engine.Channel.Admit.{decide_reply}
use leads_engine.Channel.Rows.{FloorRow, State, load_grant, load_prior}
use leads_engine.Channel.Rows.Candidates.{load_floor, floor_taken, insert_floor}
use leads_engine.Channel.Ingest.{EventIn, IngestResult, put_interaction, put_candidate, put_floor}
use leads_engine.Channel.Ingest.Transaction.{
  admit_input, store_decision, decision_of, ingest_granted, ingest, Ingested,
}
use leads_engine.Channel.Revoked.{ingest_grants}
use leads_engine.Channel.Replay.{load_prior-first_row, Settled, admit-reply, ingest_granted-Settled}
use leads_engine.Channel.Replay.Settles.{
  Kept, Decides, admit-Decides, put_interaction-Kept, put_candidate-Kept,
}

and_false : (a b : Bool) → b ≡ false → (a && b) ≡ false
and_false a b e = ground arith

module _ (sha256 : String → String) (tenant : String) (i : EventIn) where
  -- After a reply was allowed, the floor is taken.
  put_floor-taken :
      (g : Grant) (d : Decision) (floors floors' : List FloorRow)
      → d.reply_allowed
        ≡ (decide_reply (
            admit_input g i none
              (load_floor tenant i.event.provider i.event.account_id i.event.subject_id floors))).0
      → put_floor tenant i.event d
          (load_floor tenant i.event.provider i.event.account_id i.event.subject_id floors)
          floors
        ≡ some floors'
      → ((decide_reply (
            admit_input g i none
              (load_floor tenant i.event.provider i.event.account_id i.event.subject_id floors'))).0
          && load_floor tenant i.event.provider i.event.account_id i.event.subject_id floors' == "")
        ≡ false
  unfolding put_floor insert_floor load_floor
  put_floor-taken g d floors floors' reply e =
      let floor = load_floor tenant i.event.provider i.event.account_id i.event.subject_id floors in
      let new : FloorRow = record {
        tenant_id = tenant;
        provider = i.event.provider;
        account_id = i.event.account_id;
        subject_id = i.event.subject_id;
        holder = "leads_bot";
      } in
      elim (Bool-cases (d.reply_allowed && floor == "")) [
        | inr quiet ↦
            let same : floors ≡ floors' = some-injective (ground arith) in
            subst
              (λ fs.
                ((decide_reply (
                    admit_input g i none (
                      load_floor tenant i.event.provider i.event.account_id i.event.subject_id
                        fs))).0
                  && load_floor tenant i.event.provider i.event.account_id i.event.subject_id fs
                    == "")
                ≡ false)
              same (ground arith)
        | inl speaks ↦ elim (Bool-cases (floor_taken new floors)) [
          | inl taken ↦ absurd (ground arith)
          | inr free ↦
              let same : new ∷ floors ≡ floors' = some-injective (ground arith) in
              let own_tenant = eq_refl tenant in
              let own_provider = eq_refl i.event.provider in
              let own_account = eq_refl i.event.account_id in
              let own_subject = eq_refl i.event.subject_id in
              let held : load_floor tenant i.event.provider i.event.account_id i.event.subject_id
                    (new ∷ floors)
                  ≡ "leads_bot" =
                ground arith in
              let after =
                ap (load_floor tenant i.event.provider i.event.account_id i.event.subject_id)
                  (sym same)
                ∙ held in
              and_false _
                (load_floor tenant i.event.provider i.event.account_id i.event.subject_id floors'
                  == "")
                (ap (λ f. f == "") after)
        ]
      ]

  store_decision-Settled :
      (ix clc : String) (g : Grant) (s s' : State) (r : IngestResult)
      → (decision_of sha256 tenant i g s).is_ok ≡ true
      → store_decision ix clc tenant i
          (load_floor tenant i.event.provider i.event.account_id i.event.subject_id s.floors)
          (decision_of sha256 tenant i g s)
          s
        ≡ (s', some r)
      → Settled sha256 tenant i g s'
  unfolding store_decision decision_of admit_input decide_reply
  store_decision-Settled ix clc g s s' r good e =
      let ev = i.event in
      let d = decision_of sha256 tenant i g s in
      let floor = load_floor tenant ev.provider ev.account_id ev.subject_id s.floors in
      let prior = load_prior tenant ev.provider ev.account_id ev.event_id s.interactions in
      let input = admit_input g i prior floor in
      let id = if d.create_interaction then ix else d.interaction_id in
      let reply : d.reply_allowed ≡ (decide_reply input).0 = admit-reply sha256 input good in
      let at = load_prior-first_row tenant ev.provider ev.account_id ev.event_id s.interactions in
      elim (Option-cases (put_interaction ix tenant i d s.interactions)) [
        | inl n ↦ absurd (ground arith)
        | inr (rows, put) ↦
            elim (Option-cases (put_candidate clc tenant id ev d rows s.candidates)) [
              | inl n ↦ absurd (ground arith)
              | inr (step, chosen) ↦ elim (Option-cases (put_floor tenant ev d floor s.floors)) [
                | inl n ↦ absurd (ground arith)
                | inr (floors, spoken) ↦
                    let interactions : step.interactions ≡ s'.interactions = ground arith in
                    let held : floors ≡ s'.floors = ground arith in
                    let quiet = put_floor-taken g d s.floors floors reply spoken in
                    let decides : Decides sha256 tenant i prior d =
                      admit-Decides sha256 tenant i input prior refl refl good in
                    let (_, _, only, _) = decides in
                    let (x, found, answers, stays, _) =
                      subst (Kept sha256 tenant i id) interactions (
                        put_candidate-Kept sha256 tenant i clc id d rows s.candidates step only
                          (put_interaction-Kept sha256 tenant i ix d s.interactions rows decides
                            put)
                          chosen) in
                    (
                      x,
                      found,
                      answers,
                      stays,
                      subst
                          (λ fs.
                            ((decide_reply (
                                admit_input g i none
                                  (load_floor tenant ev.provider ev.account_id ev.subject_id fs))).0
                              && load_floor tenant ev.provider ev.account_id ev.subject_id fs == "")
                            ≡ false)
                          held quiet,
                    )
              ]
            ]
      ]

  ingest_granted-again :
      (ix clc ix_again clc_again : String) (g : Grant) (s s' : State) (r : IngestResult)
      → ingest_granted sha256 ix clc tenant i g s ≡ (s', some r)
      → (ingest_granted sha256 ix_again clc_again tenant i g s').0 ≡ s'
  unfolding ingest_granted
  ingest_granted-again ix clc ix_again clc_again g s s' r e =
      let d = decision_of sha256 tenant i g s in
      elim (Bool-cases d.is_ok) [
        | inl good ↦
            ingest_granted-Settled sha256 ix_again clc_again tenant i g s'
              (store_decision-Settled ix clc g s s' r good (ground arith))
        | inr refused ↦
            let same : s ≡ s' = ground arith in
            subst (λ (t : State). (ingest_granted sha256 ix_again clc_again tenant i g t).0 ≡ t)
              same (ground arith)
      ]

  -- An event that is delivered twice is stored once: where the first call answers without a failure
  -- of the database, a second call with the same event leaves every table as it is, its times aside,
  -- whatever ids it draws.
  pub ingest-ingest :
      (ix clc ix_again clc_again : String) (s s' : State) (r : IngestResult)
      → ingest sha256 ix clc tenant i s ≡ (s', some r)
      → (ingest sha256 ix_again clc_again tenant i s').0 ≡ s'
  unfolding ingest
  ingest-ingest ix clc ix_again clc_again s s' r e =
      let ev = i.event in
      let first = ingest sha256 ix clc tenant i s in
      let kept : first.0.grants ≡ s'.grants = ap (λ (p : Ingested). p.0.grants) e in
      let grants : s.grants ≡ s'.grants = sym (ingest_grants sha256 ix clc tenant i s) ∙ kept in
      let load = ap (load_grant tenant ev.provider ev.account_id) grants in
      let again = ingest sha256 ix_again clc_again tenant i s' in
      elim (Bool-cases (ev.target_tenant_id == tenant)) [
        | inr other ↦ ground arith
        | inl own ↦ elim (Option-cases (load_grant tenant ev.provider ev.account_id s'.grants)) [
          | inl n ↦ ground arith
          | inr (g, f) ↦
              let granted : ingest_granted sha256 ix clc tenant i g s ≡ (s', some r) =
                ground arith in
              let moved : again ≡ ingest_granted sha256 ix_again clc_again tenant i g s' =
                ground arith in
              ap (λ (p : Ingested). p.0) moved
              ∙ ingest_granted-again ix clc ix_again clc_again g s s' r granted
        ]
      ]
