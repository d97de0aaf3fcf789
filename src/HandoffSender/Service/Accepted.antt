-- ===== src/HandoffSender/Service/Accepted.antt =====
-- A retry that the receiver accepts.
use leads_engine.Base.{
  ℕ, true, false, ◌≡◌, ◌⊎◌, inl, inr, some, String, ◌==◌, List, [], ◌∷◌, arith, refl, ap, sym,
  subst, All, ok, err, Result, Bool-cases, eq_iff, text_cases,
}
use leads_engine.HandoffSender.{Snapshot, Config, answered, DeliveryResult, delivered}
use leads_engine.HandoffSender.Receiver.{has_channel, receive, read_result, booked}
use leads_engine.HandoffSender.Table.{change_row, set_delivery, update_delivery, latest}
use leads_engine.HandoffSender.Service.{
  Note, Error, ConfirmResult, booked_rows, deliver_step, sent_if, after_delivery,
}
use leads_engine.HandoffSender.Service.Confirm.{Facts}
use leads_engine.HandoffSender.Service.Latest.{retry_latest, retry}
use leads_engine.HandoffSender.Service.Cores.{Core, core, cores, RowIn, RowIn-Among, latest-RowIn}
use leads_engine.HandoffSender.Service.Statuses.{is_live, Status-cases}
use leads_engine.HandoffSender.Service.SameBytes.{Distinct, same_core, run-Distinct}
use leads_engine.HandoffSender.Service.Run.{Call, run}

-- Every row of the hand-off is delivered, with the receiver's draft.
abbrev pub Landed : String → String → Snapshot → Type 0
Landed k draft x =
    ((x.handoff_id == k) ≡ false) ⊎ ((x.local_status ≡ delivered) × (x.draft_ref ≡ draft))

change_row-Landed :
    (h : Snapshot) (draft : String) (change : Snapshot → Snapshot) (all rows : List Snapshot)
    → Distinct (cores all)
    → RowIn h all
    → ((x : Snapshot) → RowIn x rows → RowIn x all)
    → ((x : Snapshot) → Landed h.handoff_id draft (change x))
    → All (Landed h.handoff_id draft) (change_row h.id change rows)
unfolding change_row
change_row-Landed h draft change all [] distinct found within lands = tt
change_row-Landed h draft change all (x ∷ rows) distinct found within lands =
    let rest =
      change_row-Landed h draft change all rows distinct found (λ y m. within y (inr m)) lands in
    elim (Bool-cases (x.id == h.id)) [
      | inl e ↦ rw e (lands x, rest)
      | inr e ↦ rw e (
        (elim (text_cases x.handoff_id h.handoff_id) [
          | inr other ↦ inl other
          | inl same ↦
              let one =
                same_core (cores all) (core x) (core h) distinct
                  (RowIn-Among x all (within x (inl refl))) (RowIn-Among h all found) same in
              let id = ap (λ (c : Core). c.id) one in
              let hit = eq_iff x.id h.id in absurd (ground arith)
        ]),
        rest,
      )
    ]

booked_rows-Landed :
    (h : Snapshot) (r : DeliveryResult) (at : String) (rows : List Snapshot)
    → Distinct (cores rows)
    → RowIn h rows
    → All (Landed h.handoff_id r.draft_ref) (booked_rows h (ok r) at rows)
unfolding booked_rows update_delivery booked set_delivery
booked_rows-Landed h r at rows distinct found =
    change_row-Landed h r.draft_ref (set_delivery (booked h (ok r)) at) rows rows distinct found
      (λ x m. m) (λ x. inr (refl, refl))

-- An answer without an error: delivered now, for the first time, on being sent again.
abbrev pub SaysResent : Result Error ConfirmResult → Type 0
SaysResent (ok c) = (c.is_delivered ≡ true) × (c.duplicate ≡ false) × (c.note ≡ Note.resent)
SaysResent (err e) = ⊥

receive-accepted :
    (cfg : Config) (status : ℕ) (r : DeliveryResult) (code : String)
    → has_channel cfg ≡ true
    → (status ≡ 200) ⊎ (status ≡ 201)
    → receive cfg (answered status (some r) code) ≡ ok r
unfolding receive read_result
receive-accepted cfg status r code channel good = ground arith

-- Where the latest snapshot of the opportunity is not revoked, whatever the calls before, one retry
-- that the receiver answers with 200 or 201 and a readable body posts it, delivers its row with the
-- receiver's draft, and answers without an error that it is delivered, as a resending that is no
-- duplicate.
pub retry-Landed :
    (cfg : Config) (facts : Facts) (calls : List Call) (opportunity tenant at : String)
    (h : Snapshot) (status : ℕ) (r : DeliveryResult) (code : String)
    → has_channel cfg ≡ true
    → (status ≡ 200) ⊎ (status ≡ 201)
    → latest opportunity tenant (run cfg facts [] calls) ≡ some h
    → is_live h.local_status ≡ true
    → All
        (Landed h.handoff_id r.draft_ref)
        (retry cfg at
          (answered status (some r) code)
          (run cfg facts [] calls)
          opportunity
          tenant
          "").rows
      × ((retry cfg at
            (answered status (some r) code)
            (run cfg facts [] calls)
            opportunity
            tenant
            "").posted
          ≡ some h)
      × SaysResent
          (retry cfg at
            (answered status (some r) code)
            (run cfg facts [] calls)
            opportunity
            tenant
            "").answer
unfolding retry retry_latest deliver_step cores sent_if after_delivery
retry-Landed cfg facts calls opportunity tenant at h status r code channel good found live =
    let rows = run cfg facts [] calls in
    let reply = answered status (some r) code in
    let st = retry cfg at reply rows opportunity tenant "" in
    let accepted = receive-accepted cfg status r code channel good in
    let sent = deliver_step cfg at reply rows h false Note.resent Note.still_pending in
    let moved : st ≡ sent = elim (Status-cases h.local_status) [
      | inl e ↦ absurd (ground arith)
      | inr (inl e) ↦ ground arith
      | inr (inr (_, inl e)) ↦ ground arith
      | inr (inr (_, inr e)) ↦ ground arith
    ] in
    let same : st.rows ≡ booked_rows h (ok r) at rows = ground arith in
    (
      subst (All (Landed h.handoff_id r.draft_ref)) (sym same) (
          booked_rows-Landed h r at rows (run-Distinct cfg facts [] calls tt)
            (latest-RowIn opportunity tenant rows h found)),
      ground arith,
      ground arith,
    )
