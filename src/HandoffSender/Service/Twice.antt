-- ===== src/HandoffSender/Service/Twice.antt =====
-- What a second confirmation of the same content does.
use leads_engine.Base.{
  Bool, true, false, ◌≡◌, inl, inr, ◌&&◌, ◌||◌, Option, none, some, String, ◌==◌, List, [], ◌∷◌,
  arith, refl, ap, sym, Result, ok, err, Option-cases, eq_iff, eq_refl,
}
use leads_engine.HandoffSender.{Snapshot, Config, Reply, DeliveryResult}
use leads_engine.HandoffSender.Input.{ConfirmedInput, validate}
use leads_engine.HandoffSender.Receiver.{booked, receive}
use leads_engine.HandoffSender.Table.{find_row, by_fingerprint, insert_row}
use leads_engine.HandoffSender.Service.{
  Error, Registry, setup_refusal, target_refusal, ConfirmResult, confirm_refusal, deliver_step,
  booked_rows,
}
use leads_engine.HandoffSender.Service.Confirm.{
  confirm_existing, confirm_parallel, confirm_new, new_snapshot, Facts, Asked, confirm_document,
  snapshot_of, confirm_accepted, confirm,
}
use leads_engine.HandoffSender.Service.Cores.{Core, cores, cores-update_delivery, insert_row-Free}
use leads_engine.HandoffSender.Service.Statuses.{Status-cases}

-- A content of the opportunity has the fingerprint.
abbrev pub has_content : String → String → String → List Core → Bool
has_content opportunity tenant key [] = false
has_content opportunity tenant key (c ∷ cs) =
    c.opportunity_id == opportunity && c.tenant_id == tenant && c.fingerprint == key
    || has_content opportunity tenant key cs

abbrev is_found : Option Snapshot → Bool
is_found none = false
is_found (some _) = true

by_fingerprint-has_content :
    (opportunity tenant key : String) (rows : List Snapshot)
    → is_found (by_fingerprint opportunity tenant key rows)
      ≡ has_content opportunity tenant key (cores rows)
unfolding by_fingerprint find_row cores
by_fingerprint-has_content opportunity tenant key [] = refl
by_fingerprint-has_content opportunity tenant key (h ∷ rows) =
    ground (arith, by_fingerprint-has_content opportunity tenant key rows)

cores-booked_rows :
    (h : Snapshot) (r : Result _ DeliveryResult) (at : String) (rows : List Snapshot)
    → cores (booked_rows h r at rows) ≡ cores rows
unfolding booked_rows
cores-booked_rows h r at rows = cores-update_delivery (booked h r) at rows

-- A snapshot that is there is delivered again or reported, and no content changes.
confirm_existing-cores :
    (cfg : Config) (at : String) (reply : Reply DeliveryResult) (rows : List Snapshot)
    (h : Snapshot)
    → cores (confirm_existing cfg at reply rows h).rows ≡ cores rows
unfolding confirm_existing deliver_step
confirm_existing-cores cfg at reply rows h =
    let kept = cores-booked_rows h (receive cfg reply) at rows in
    elim (Status-cases h.local_status) [
      | inl e ↦ ground arith
      | inr (inl e) ↦ ground arith
      | inr (inr (_, inl e)) ↦ ground arith
      | inr (inr (_, inr e)) ↦ ground arith
    ]

-- A confirmation of a content that is there.
confirm-known :
    (cfg : Config) (facts : Facts) (reply : Reply DeliveryResult) (rows : List Snapshot)
    (i : ConfirmedInput) (asked : Asked)
    → has_content i.opportunity_id i.tenant_id (facts.fingerprint i) (cores rows) ≡ true
    → cores (confirm cfg facts reply rows i asked).rows ≡ cores rows
unfolding confirm confirm_accepted
confirm-known cfg facts reply rows i asked known =
    let here = by_fingerprint-has_content i.opportunity_id i.tenant_id (facts.fingerprint i) rows in
    elim (Option-cases (confirm_refusal cfg facts.registry i)) [
      | inr (e, f) ↦ ground arith
      | inl f ↦
          elim (Option-cases
            (by_fingerprint i.opportunity_id i.tenant_id (facts.fingerprint i) rows)) [
              | inl n ↦ absurd (ground arith)
              | inr (h, s) ↦ ground (arith, confirm_existing-cores cfg asked.at reply rows h)
            ]
    ]

-- The call has a result, or the receiver's refusal, so that the content is stored.
abbrev pub got_through : Result Error ConfirmResult → Bool
got_through (ok _) = true
got_through (err (Error.receiver_failed _)) = true
got_through (err _) = false

-- The checks before a confirmation do not ask the receiver.
got_through-confirm_refusal :
    (cfg : Config) (reg : Registry) (i : ConfirmedInput) (e : Error)
    → confirm_refusal cfg reg i ≡ some e
    → got_through (err e) ≡ false
unfolding confirm_refusal setup_refusal target_refusal
got_through-confirm_refusal cfg reg i e f = elim (Option-cases (validate i)) [
  | inr (why, g) ↦ ground arith
  | inl g ↦ elim (Option-cases reg.self) [ inl n ↦ ground arith | inr (app, s) ↦ ground arith ]
]

confirm_new-stores :
    (cfg : Config) (at : String) (reply : Reply DeliveryResult) (rows : List Snapshot)
    (i : ConfirmedInput) (new : Snapshot)
    → (new.opportunity_id ≡ i.opportunity_id) × (new.tenant_id ≡ i.tenant_id)
    → got_through (confirm_new cfg at reply rows i new).answer ≡ true
    → has_content i.opportunity_id i.tenant_id new.fingerprint
        (cores (confirm_new cfg at reply rows i new).rows)
      ≡ true
unfolding confirm_new confirm_parallel deliver_step cores
confirm_new-stores cfg at reply rows i new (same_opportunity, same_tenant) through =
    elim (Option-cases (insert_row new rows)) [
      | inl refused ↦
          let there =
            by_fingerprint-has_content i.opportunity_id i.tenant_id new.fingerprint rows in
          elim (Option-cases (by_fingerprint i.opportunity_id i.tenant_id new.fingerprint rows)) [
            | inl n ↦ absurd (ground arith)
            | inr (h, s) ↦ ground arith
          ]
      | inr (rows', e) ↦
          let (free, same) = insert_row-Free new rows rows' e in
          let kept = cores-booked_rows new (receive cfg reply) at rows' in
          let stored = ap cores (sym same) in
          let own = eq_iff new.opportunity_id i.opportunity_id in
          let mine = eq_iff new.tenant_id i.tenant_id in
          let key = eq_refl new.fingerprint in ground arith
    ]

confirm-stores :
    (cfg : Config) (facts : Facts) (reply : Reply DeliveryResult) (rows : List Snapshot)
    (i : ConfirmedInput) (asked : Asked)
    → got_through (confirm cfg facts reply rows i asked).answer ≡ true
    → has_content i.opportunity_id i.tenant_id
        (facts.fingerprint i)
        (cores (confirm cfg facts reply rows i asked).rows)
      ≡ true
unfolding confirm confirm_accepted snapshot_of new_snapshot
confirm-stores cfg facts reply rows i asked through =
    let key = facts.fingerprint i in
    let here = by_fingerprint-has_content i.opportunity_id i.tenant_id key rows in
    elim (Option-cases (confirm_refusal cfg facts.registry i)) [
      | inr (e, f) ↦
          let early = got_through-confirm_refusal cfg facts.registry i e f in absurd (ground arith)
      | inl f ↦ elim (Option-cases (by_fingerprint i.opportunity_id i.tenant_id key rows)) [
        | inr (h, s) ↦ ground (arith, confirm_existing-cores cfg asked.at reply rows h)
        | inl n ↦ elim (Option-cases (confirm_document cfg facts rows i asked)) [
          | inl g ↦ absurd (ground arith)
          | inr (doc, g) ↦
              let new = snapshot_of cfg facts rows i asked doc in
              ground (arith, confirm_new-stores cfg asked.at reply rows i new (refl, refl))
        ]
      ]
    ]

-- Where a confirmation gets a result, or only the receiver refuses, confirming the same content
-- again stores nothing new and changes no stored content, whoever asks and whatever the receiver
-- answers.
pub confirm-confirm :
    (cfg : Config) (facts : Facts) (reply again : Reply DeliveryResult) (rows : List Snapshot)
    (i : ConfirmedInput) (asked later : Asked)
    → got_through (confirm cfg facts reply rows i asked).answer ≡ true
    → cores (confirm cfg facts again (confirm cfg facts reply rows i asked).rows i later).rows
      ≡ cores (confirm cfg facts reply rows i asked).rows
confirm-confirm cfg facts reply again rows i asked later through =
    confirm-known cfg facts again (confirm cfg facts reply rows i asked).rows i later
      (confirm-stores cfg facts reply rows i asked through)
