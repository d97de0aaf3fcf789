-- ===== src/Channel/Invariant/Run.antt =====
-- What the tables say after a run.
use leads_engine.Base.{
  ◌≡◌, inl, inr, String, ◌==◌, List, [], ◌∷◌, if◌then◌else◌, sym, subst, arith, Bool-cases,
  Option-cases, All,
}
use leads_engine.Channel.{Decision}
use leads_engine.Channel.Rows.{State, empty, load_grant, load_prior}
use leads_engine.Channel.Rows.Candidates.{load_floor}
use leads_engine.Channel.Ingest.{
  EventIn, save_grant, revoke_grant, set_floor, put_interaction, put_candidate, put_floor,
}
use leads_engine.Channel.Ingest.Transaction.{
  admit_input, store_decision, decision_of, ingest_granted, ingest, Ingested, Call, call_save,
  call_revoke, call_floor, call_ingest, after, run,
}
use leads_engine.Channel.Invariant.{
  IsQuiet, IsSales, Lawful, admit-Lawful, put_interaction-IsQuiet, put_candidate-kept,
}

-- What the tables say.
abbrev pub IsTrue : State → Type 0
IsTrue s = All IsQuiet s.interactions × All IsSales s.candidates

store_decision-IsTrue :
    (ix clc tenant : String) (i : EventIn) (floor : String) (d : Decision) (s : State)
    → Lawful i.event d
    → IsTrue s
    → IsTrue (store_decision ix clc tenant i floor d s).0
unfolding store_decision
store_decision-IsTrue ix clc tenant i floor d s lawful (quiet, sales) =
    let result = store_decision ix clc tenant i floor d s in
    let id = if d.create_interaction then ix else d.interaction_id in
    let same : result.0 ≡ s → IsTrue result.0 = λ e. subst IsTrue (sym e) (quiet, sales) in
    elim (Option-cases (put_interaction ix tenant i d s.interactions)) [
      | inl e ↦ same (ground arith)
      | inr (rows, e) ↦
          elim (Option-cases (put_candidate clc tenant id i.event d rows s.candidates)) [
            | inl f ↦ same (ground arith)
            | inr (step, f) ↦ elim (Option-cases (put_floor tenant i.event d floor s.floors)) [
              | inl g ↦ same (ground arith)
              | inr (floors, g) ↦
                  let kept =
                    put_interaction-IsQuiet ix tenant i d s.interactions rows lawful quiet e in
                  let (one, two) =
                    put_candidate-kept clc tenant id i.event d rows s.candidates step lawful kept
                      sales f in
                  let interactions : result.0.interactions ≡ step.interactions = ground arith in
                  let candidates : result.0.candidates ≡ step.candidates = ground arith in
                  (
                    subst (All IsQuiet) (sym interactions) one,
                    subst (All IsSales) (sym candidates) two,
                  )
            ]
          ]
    ]

module _ (sha256 : String → String) where
  ingest-IsTrue :
      (ix clc tenant : String) (i : EventIn) (s : State)
      → IsTrue s
      → IsTrue (ingest sha256 ix clc tenant i s).0
  unfolding ingest ingest_granted decision_of admit_input
  ingest-IsTrue ix clc tenant i s good =
      let result = ingest sha256 ix clc tenant i s in
      let same : result.0 ≡ s → IsTrue result.0 = λ e. subst IsTrue (sym e) good in
      let e = i.event in
      elim (Bool-cases (e.target_tenant_id == tenant)) [
        | inr other ↦ same (ground arith)
        | inl own ↦ elim (Option-cases (load_grant tenant e.provider e.account_id s.grants)) [
          | inl n ↦ same (ground arith)
          | inr (g, f) ↦
              let d = decision_of sha256 tenant i g s in
              let floor = load_floor tenant e.provider e.account_id e.subject_id s.floors in
              let prior = load_prior tenant e.provider e.account_id e.event_id s.interactions in
              let stored =
                store_decision-IsTrue ix clc tenant i floor d s
                  (admit-Lawful sha256 (admit_input g i prior floor)) good in
              elim (Bool-cases d.is_ok) [
                | inr n ↦ same (ground arith)
                | inl y ↦
                    let moved : result ≡ store_decision ix clc tenant i floor d s = ground arith in
                    subst (λ (p : Ingested). IsTrue p.0) (sym moved) stored
              ]
        ]
      ]

  after-IsTrue : (s : State) (c : Call) → IsTrue s → IsTrue (after sha256 s c)
  unfolding after save_grant revoke_grant set_floor
  after-IsTrue s (call_save tenant i) good =
      let rows : (after sha256 s (call_save tenant i)).interactions ≡ s.interactions =
        ground arith in
      let candidates : (after sha256 s (call_save tenant i)).candidates ≡ s.candidates =
        ground arith in
      (subst (All IsQuiet) (sym rows) good.0, subst (All IsSales) (sym candidates) good.1)
  after-IsTrue s (call_revoke t p a) good =
      let rows : (after sha256 s (call_revoke t p a)).interactions ≡ s.interactions =
        ground arith in
      let candidates : (after sha256 s (call_revoke t p a)).candidates ≡ s.candidates =
        ground arith in
      (subst (All IsQuiet) (sym rows) good.0, subst (All IsSales) (sym candidates) good.1)
  after-IsTrue s (call_floor t p a subject holder) good =
      let c = call_floor t p a subject holder in
      let rows : (after sha256 s c).interactions ≡ s.interactions = ground arith in
      let candidates : (after sha256 s c).candidates ≡ s.candidates = ground arith in
      (subst (All IsQuiet) (sym rows) good.0, subst (All IsSales) (sym candidates) good.1)
  after-IsTrue s (call_ingest ix clc tenant i) good = ingest-IsTrue ix clc tenant i s good

  run_from-IsTrue : (s : State) (calls : List Call) → IsTrue s → IsTrue (run sha256 s calls)
  unfolding run
  run_from-IsTrue s [] good = good
  run_from-IsTrue s (c ∷ calls) good =
      run_from-IsTrue (after sha256 s c) calls (after-IsTrue s c good)

-- In every run from empty tables, no interaction is marked as sent, one is marked for marketing by
-- phone or message only with a number, and every candidate comes from a sales inquiry.
pub run-IsTrue : (sha256 : String → String) (calls : List Call) → IsTrue (run sha256 empty calls)
run-IsTrue sha256 calls = run_from-IsTrue sha256 empty calls (tt, tt)
