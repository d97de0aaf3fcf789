-- ===== src/Channel/Invariant.antt =====
-- What one stored interaction or candidate says.
pub mod Run
use leads_engine.Base.{
  true, false, ◌≡◌, ◌⊎◌, inl, inr, ◌&&◌, not, some, String, ◌==◌, List, [], ◌∷◌, if◌then◌else◌,
  refl, sym, subst, arith, eq_iff, Bool-cases, Option-cases, All, some-injective, blank,
}
use leads_engine.Channel.{Event, Input, Decision}
use leads_engine.Channel.Admit.{
  admit, refusal_of, bare, accepted, retracting, keeping, explicit_sales, sales_inquiry,
}
use leads_engine.Channel.Rows.{
  InteractionRow, CandidateRow, CandidateStatus, candidate_open, candidate_confirmed,
  candidate_withdrawn, State, empty, load_grant, load_prior, interaction_taken, insert_interaction,
  change_interaction,
}
use leads_engine.Channel.Rows.Candidates.{
  candidate_taken, insert_candidate, withdraw, candidate_status, load_floor,
}
use leads_engine.Channel.Ingest.{
  EventIn, save_grant, revoke_grant, set_floor, put_interaction, new_interaction, edited,
  put_candidate, new_candidate, CandidateStep, put_floor,
}
use leads_engine.Channel.Ingest.Transaction.{
  admit_input, store_decision, decision_of, ingest_granted, ingest, Ingested, Call, call_save,
  call_revoke, call_floor, call_ingest, after, run,
}

-- Nothing was sent, and marketing by phone or message is marked only with a number.
abbrev pub IsQuiet : InteractionRow → Type 0
IsQuiet x =
    (x.auto_reach ≡ false)
    × ((x.phone_marketing && blank x.phone) ≡ false)
    × ((x.sms_marketing && blank x.phone) ≡ false)

abbrev pub IsSales : CandidateRow → Type 0
IsSales c = c.purpose ≡ sales_inquiry

-- What the decision lets the transaction write.
abbrev pub Lawful : Event → Decision → Type 0
Lawful e d =
    ((d.phone_marketing && blank e.phone) ≡ false)
    × ((d.sms_marketing && blank e.phone) ≡ false)
    × ((d.create_candidate && not (explicit_sales e)) ≡ false)

pub admit-Lawful : (sha256 : String → String) (i : Input) → Lawful i.event (admit sha256 i)
unfolding admit bare accepted retracting keeping
admit-Lawful sha256 i = elim (Option-cases (refusal_of i)) [
  | inr (r, e) ↦ (ground arith, ground arith, ground arith)
  | inl e ↦ elim (Option-cases i.prior) [
    | inl n ↦ (ground arith, ground arith, ground arith)
    | inr (p, f) ↦ (ground arith, ground arith, ground arith)
  ]
]

change_interaction-IsQuiet :
    (id tenant : String) (change : InteractionRow → InteractionRow) (rows : List InteractionRow)
    → ((x : InteractionRow) → IsQuiet x → IsQuiet (change x))
    → All IsQuiet rows
    → All IsQuiet (change_interaction id tenant change rows)
unfolding change_interaction
change_interaction-IsQuiet id tenant change [] f all = tt
change_interaction-IsQuiet id tenant change (x ∷ rows) f (here, all) =
    let rest = change_interaction-IsQuiet id tenant change rows f all in
    elim (Bool-cases (x.id == id && x.tenant_id == tenant)) [
      | inl e ↦ rw e (f x here, rest)
      | inr e ↦ rw e (here, rest)
    ]

pub put_interaction-IsQuiet :
    (fresh tenant : String) (i : EventIn) (d : Decision) (rows rows' : List InteractionRow)
    → Lawful i.event d
    → All IsQuiet rows
    → put_interaction fresh tenant i d rows ≡ some rows'
    → All IsQuiet rows'
unfolding put_interaction insert_interaction
put_interaction-IsQuiet fresh tenant i d rows rows' (phone, sms, sales) all e =
    let new = new_interaction fresh tenant i d in
    elim (Bool-cases d.create_interaction) [
      | inl create ↦ elim (Bool-cases (interaction_taken new rows)) [
        | inl taken ↦ absurd (ground arith)
        | inr free ↦
            let same : new ∷ rows ≡ rows' = some-injective (ground arith) in
            subst (All IsQuiet) same ((refl, phone, sms), all)
      ]
      | inr keep ↦ elim (Bool-cases d.update) [
        | inl update ↦
            let same : change_interaction d.interaction_id tenant (edited i.event d) rows ≡ rows' =
              some-injective (ground arith) in
            subst (All IsQuiet) same (
              change_interaction-IsQuiet d.interaction_id tenant (edited i.event d) rows (λ x q. q)
                all)
        | inr no_update ↦ elim (Bool-cases d.retract) [
          | inl retract ↦
              let same : change_interaction d.interaction_id tenant
                    (λ x. record x { is_retracted = true }) rows
                  ≡ rows' =
                some-injective (rw (keep, no_update, retract) at e) in
              subst (All IsQuiet) same (
                change_interaction-IsQuiet d.interaction_id tenant
                  (λ x. record x { is_retracted = true }) rows (λ x q. q) all)
          | inr quiet ↦ subst (All IsQuiet) (some-injective (ground arith)) all
        ]
      ]
    ]

open_cases :
    (s : CandidateStatus)
    → (s ≡ candidate_open) ⊎ ((s ≡ candidate_confirmed) ⊎ (s ≡ candidate_withdrawn))
open_cases candidate_open = inl refl
open_cases candidate_confirmed = inr (inl refl)
open_cases candidate_withdrawn = inr (inr refl)

withdraw-IsSales :
    (id tenant : String) (rows : List CandidateRow)
    → All IsSales rows
    → All IsSales (withdraw id tenant rows)
unfolding withdraw
withdraw-IsSales id tenant [] all = tt
withdraw-IsSales id tenant (c ∷ rows) (here, all) =
    let rest = withdraw-IsSales id tenant rows all in
    let result = withdraw id tenant (c ∷ rows) in
    let keeps : result ≡ c ∷ withdraw id tenant rows → All IsSales result =
      λ same. subst (All IsSales) (sym same) (here, rest) in
    elim (Bool-cases (c.id == id && c.tenant_id == tenant)) [
      | inr e ↦ keeps (ground arith)
      | inl e ↦ elim (open_cases c.status) [
        | inl f ↦
            let same : result
                ≡ record c { status = candidate_withdrawn } ∷ withdraw id tenant rows =
              ground arith in
            subst (All IsSales) (sym same) (here, rest)
        | inr (inl f) ↦ keeps (ground arith)
        | inr (inr f) ↦ keeps (ground arith)
      ]
    ]

explicit_sales-purpose : (e : Event) → explicit_sales e ≡ true → e.purpose ≡ sales_inquiry
unfolding explicit_sales
explicit_sales-purpose e f = (eq_iff e.purpose sales_inquiry).0 (ground arith)

-- The rows stay quiet, and the candidates from sales inquiries.
pub put_candidate-kept :
    (fresh tenant interaction : String) (e : Event) (d : Decision) (rows : List InteractionRow)
    (candidates : List CandidateRow) (step : CandidateStep)
    → Lawful e d
    → All IsQuiet rows
    → All IsSales candidates
    → put_candidate fresh tenant interaction e d rows candidates ≡ some step
    → All IsQuiet step.interactions × All IsSales step.candidates
unfolding put_candidate insert_candidate
put_candidate-kept fresh tenant interaction e d rows candidates step (phone, sms, sales) quiet all
      f =
    let new = new_candidate fresh tenant interaction e in
    elim (Bool-cases d.create_candidate) [
      | inl create ↦ elim (Bool-cases (candidate_taken new candidates)) [
        | inl taken ↦ absurd (ground arith)
        | inr free ↦
            let marked =
              change_interaction interaction tenant (λ x. record x { candidate_id = fresh }) rows in
            let one : marked ≡ step.interactions = ground arith in
            let two : new ∷ candidates ≡ step.candidates = ground arith in
            (
              subst (All IsQuiet) one (
                  change_interaction-IsQuiet interaction tenant
                    (λ x. record x { candidate_id = fresh }) rows (λ x q. q) quiet),
              subst (All IsSales) two (explicit_sales-purpose e (ground arith), all),
            )
      ]
      | inr keep ↦ elim (Bool-cases d.withdraw_candidate) [
        | inl out ↦
            let one : rows ≡ step.interactions = ground arith in
            let two : withdraw d.candidate_id tenant candidates ≡ step.candidates = ground arith in
            (
              subst (All IsQuiet) one quiet,
              subst (All IsSales) two (withdraw-IsSales d.candidate_id tenant candidates all),
            )
        | inr stay ↦
            let there = Option-cases (candidate_status d.candidate_id tenant candidates) in
            let one : rows ≡ step.interactions = elim there [
              | inl n ↦ ground arith
              | inr (st, g) ↦ ground arith
            ] in
            let two : candidates ≡ step.candidates = elim there [
              | inl n ↦ ground arith
              | inr (st, g) ↦ ground arith
            ] in
            (subst (All IsQuiet) one quiet, subst (All IsSales) two all)
      ]
    ]
