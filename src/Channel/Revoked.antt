-- ===== src/Channel/Revoked.antt =====
-- A grant that was revoked.
use leads_engine.Base.{
  Bool, true, false, ◌≡◌, inl, inr, some, String, ◌==◌, List, [], ◌∷◌, if◌then◌else◌, sym, subst,
  arith, eq_iff, Bool-cases, Option-cases,
}
use leads_engine.Channel.{Grant, permission_revoked, Decision}
use leads_engine.Channel.Admit.{admit, refusal_of, bare}
use leads_engine.Channel.Rows.{
  GrantRow, State, load_grant, upsert_grant, mark_revoked, grant_is, join,
}
use leads_engine.Channel.Rows.Candidates.{load_floor}
use leads_engine.Channel.Ingest.{
  EventIn, by_admit, IngestResult, save_grant, revoke_grant, set_floor, put_interaction,
  put_candidate, put_floor,
}
use leads_engine.Channel.Ingest.Transaction.{
  admit_input, store_decision, decision_of, ingest_granted, ingest, Ingested, Call, call_save,
  call_revoke, call_floor, call_ingest, after, run,
}

-- The grant that is loaded is revoked.
abbrev pub is_shut : String → String → String → List GrantRow → Bool
is_shut tenant provider account [] = false
is_shut tenant provider account (g ∷ rows) =
    if grant_is tenant provider account g
    then g.is_revoked
    else is_shut tenant provider account rows

load_grant_shut :
    (tenant provider account : String) (rows : List GrantRow)
    → is_shut tenant provider account rows ≡ true
    → (g : Grant) × (load_grant tenant provider account rows ≡ some g) × (g.is_revoked ≡ true)
unfolding load_grant
load_grant_shut tenant provider account [] e = absurd (ground arith)
load_grant_shut tenant provider account (g ∷ rows) e =
    elim (Bool-cases (grant_is tenant provider account g)) [
      | inr other ↦
          let (found, same, shut) = load_grant_shut tenant provider account rows (rw other at e) in
          (found, rw other same, shut)
      | inl own ↦ elim (Option-cases (load_grant tenant provider account (g ∷ rows))) [
        | inl none_there ↦ absurd (ground arith)
        | inr (found, same) ↦ (found, same, ground arith)
      ]
    ]

is_shut-upsert_grant :
    (tenant provider account : String) (new : GrantRow) (rows : List GrantRow)
    → is_shut tenant provider account rows ≡ true
    → is_shut tenant provider account (upsert_grant new rows) ≡ true
unfolding upsert_grant
is_shut-upsert_grant tenant provider account new [] e = absurd (ground arith)
is_shut-upsert_grant tenant provider account new (g ∷ rows) e =
    let later = is_shut-upsert_grant tenant provider account new rows in
    elim (Bool-cases (grant_is new.tenant_id new.provider new.account_id g)) [
      | inl hit ↦ rw hit e
      | inr miss ↦ rw miss (elim (Bool-cases (grant_is tenant provider account g)) [
        | inl own ↦ ground arith
        | inr other ↦ ground arith
      ])
    ]

is_shut-mark_revoked :
    (tenant provider account t p a : String) (rows : List GrantRow)
    → is_shut tenant provider account rows ≡ true
    → is_shut tenant provider account (mark_revoked t p a rows).0 ≡ true
unfolding mark_revoked
is_shut-mark_revoked tenant provider account t p a [] e = absurd (ground arith)
is_shut-mark_revoked tenant provider account t p a (g ∷ rows) e =
    let later = is_shut-mark_revoked tenant provider account t p a rows in
    elim (Bool-cases (grant_is t p a g)) [
      | inl hit ↦ rw hit (elim (Bool-cases (grant_is tenant provider account g)) [
        | inl own ↦ ground arith
        | inr other ↦ ground arith
      ])
      | inr miss ↦ rw miss (elim (Bool-cases (grant_is tenant provider account g)) [
        | inl own ↦ ground arith
        | inr other ↦ ground arith
      ])
    ]

store_decision_grants :
    (ix clc tenant : String) (i : EventIn) (floor : String) (d : Decision) (s : State)
    → (store_decision ix clc tenant i floor d s).0.grants ≡ s.grants
unfolding store_decision
store_decision_grants ix clc tenant i floor d s =
    let id = if d.create_interaction then ix else d.interaction_id in
    elim (Option-cases (put_interaction ix tenant i d s.interactions)) [
      | inl e ↦ ground arith
      | inr (rows, e) ↦
          elim (Option-cases (put_candidate clc tenant id i.event d rows s.candidates)) [
            | inl f ↦ ground arith
            | inr (step, f) ↦ elim (Option-cases (put_floor tenant i.event d floor s.floors)) [
              | inl g ↦ ground arith
              | inr (floors, g) ↦ ground arith
            ]
          ]
    ]

module _ (sha256 : String → String) where
  pub ingest_grants :
      (ix clc tenant : String) (i : EventIn) (s : State)
      → (ingest sha256 ix clc tenant i s).0.grants ≡ s.grants
  unfolding ingest ingest_granted
  ingest_grants ix clc tenant i s =
      let e = i.event in
      elim (Bool-cases (e.target_tenant_id == tenant)) [
        | inr other ↦ ground arith
        | inl own ↦ elim (Option-cases (load_grant tenant e.provider e.account_id s.grants)) [
          | inl n ↦ ground arith
          | inr (g, f) ↦
              let d = decision_of sha256 tenant i g s in
              let floor = load_floor tenant e.provider e.account_id e.subject_id s.floors in
              let kept = store_decision_grants ix clc tenant i floor d s in
              elim (Bool-cases d.is_ok) [ inl y ↦ ground arith | inr n ↦ ground arith ]
        ]
      ]

  is_shut-after :
      (tenant provider account : String) (s : State) (c : Call)
      → is_shut tenant provider account s.grants ≡ true
      → is_shut tenant provider account (after sha256 s c).grants ≡ true
  unfolding after save_grant revoke_grant set_floor
  is_shut-after tenant provider account s (call_save t i) e =
      let new : GrantRow = record {
        tenant_id = t;
        provider = i.provider;
        account_id = i.account_id;
        app_id = i.app_id;
        subject_ns = i.subject_ns;
        message_ns = i.message_ns;
        post_ns = i.post_ns;
        capabilities = join i.capabilities;
        is_revoked = false;
      } in
      let kept = is_shut-upsert_grant tenant provider account new s.grants e in ground arith
  is_shut-after tenant provider account s (call_revoke t p a) e =
      let kept = is_shut-mark_revoked tenant provider account t p a s.grants e in ground arith
  is_shut-after tenant provider account s (call_floor t p a subject holder) e = ground arith
  is_shut-after tenant provider account s (call_ingest ix clc t i) e =
      let kept = ingest_grants ix clc t i s in
      subst (λ grants. is_shut tenant provider account grants ≡ true) (sym kept) e

  is_shut-run :
      (tenant provider account : String) (s : State) (calls : List Call)
      → is_shut tenant provider account s.grants ≡ true
      → is_shut tenant provider account (run sha256 s calls).grants ≡ true
  unfolding run
  is_shut-run tenant provider account s [] e = e
  is_shut-run tenant provider account s (c ∷ calls) e =
      is_shut-run tenant provider account (after sha256 s c) calls
        (is_shut-after tenant provider account s c e)

-- What an event finds where the grant is revoked.
abbrev pub Refuses : State → Ingested → Type 0
Refuses s result =
    (result.0 ≡ s)
    × ((r : IngestResult) × (result.1 ≡ some r) × (r.refusal ≡ some (by_admit permission_revoked)))

-- Once a grant is revoked, no call opens it again, saving the grant included: after any calls, every
-- event of its tenant and account is refused as revoked, and nothing is stored.
pub revoked_grant_final :
    (sha256 : String → String) (s : State) (calls : List Call) (ix clc tenant : String)
    (i : EventIn)
    → is_shut tenant i.event.provider i.event.account_id s.grants ≡ true
    → i.event.target_tenant_id ≡ tenant
    → Refuses (run sha256 s calls) (ingest sha256 ix clc tenant i (run sha256 s calls))
unfolding ingest ingest_granted decision_of admit refusal_of bare admit_input
revoked_grant_final sha256 s calls ix clc tenant i shut own =
    let now = run sha256 s calls in
    let e = i.event in
    let (g, found, closed) =
      load_grant_shut tenant e.provider e.account_id now.grants
        (is_shut-run sha256 tenant e.provider e.account_id s calls shut) in
    let same = eq_iff e.target_tenant_id tenant in
    elim (Option-cases (ingest sha256 ix clc tenant i now).1) [
      | inl n ↦ absurd (ground arith)
      | inr (r, f) ↦ (ground arith, (r, f, ground arith))
    ]
