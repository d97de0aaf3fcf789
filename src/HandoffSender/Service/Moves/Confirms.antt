-- ===== src/HandoffSender/Service/Moves/Confirms.antt =====
-- The transition that `Confirm` makes.
use leads_engine.Base.{true, ◌≡◌, ◌⊎◌, inl, inr, none, String, List, arith, refl, Option-cases}
use leads_engine.HandoffSender.{
  confirmed, delivery_failed, revoked, delivered, Snapshot, Config, Reply, DeliveryResult,
}
use leads_engine.HandoffSender.Input.{ConfirmedInput}
use leads_engine.HandoffSender.Receiver.{receive}
use leads_engine.HandoffSender.Table.{any_collides, insert_row, by_fingerprint}
use leads_engine.HandoffSender.Service.{Note, confirm_refusal, deliver_step}
use leads_engine.HandoffSender.Service.Confirm.{
  confirm_existing, confirm_parallel, confirm_new, Facts, Asked, confirm_document, snapshot_of,
  confirm_accepted, confirm,
}
use leads_engine.HandoffSender.Service.Cores.{RowIn, by_fingerprint-RowIn, insert_row-Free}
use leads_engine.HandoffSender.Service.Statuses.{is_live, Status-cases}
use leads_engine.HandoffSender.Service.Run.{Call, call_confirm}
use leads_engine.HandoffSender.Service.Orders.{Stays, Delivers, Inserts}
use leads_engine.HandoffSender.Service.Moves.{
  inserts, IsMove, quiet-IsMove, moved-IsMove, deliver_step-IsMove, sent_cases,
}

new-IsLive :
    (cfg : Config) (facts : Facts) (rows : List Snapshot) (i : ConfirmedInput) (asked : Asked)
    (doc : String)
    → is_live (snapshot_of cfg facts rows i asked doc).local_status ≡ true
unfolding snapshot_of
new-IsLive cfg facts rows i asked doc = refl

any_collides-insert_row :
    (new : Snapshot) (rows : List Snapshot)
    → insert_row new rows ≡ none
    → any_collides new rows ≡ true
unfolding insert_row
any_collides-insert_row new rows e = ground arith

module _ (cfg : Config) (facts : Facts) (c : Call) (rows : List Snapshot) where
  confirm_existing-IsMove :
      (at : String) (reply : Reply DeliveryResult) (h : Snapshot)
      → ((h.local_status ≡ confirmed) ⊎ (h.local_status ≡ delivery_failed)
          → Delivers cfg facts c rows h (receive cfg reply) at)
      → RowIn h rows
      → ((h.local_status ≡ revoked) ⊎ (h.local_status ≡ delivered) → Stays cfg facts c rows)
      → IsMove cfg facts c rows (confirm_existing cfg at reply rows h)
  unfolding confirm_existing
  confirm_existing-IsMove at reply h told found ends =
      let st = confirm_existing cfg at reply rows h in
      elim (Status-cases h.local_status) [
        | inl e ↦ quiet-IsMove cfg facts c rows st (ends (inl e)) (ground arith) (ground arith)
        | inr (inl e) ↦
            quiet-IsMove cfg facts c rows st (ends (inr e)) (ground arith) (ground arith)
        | inr (inr (live, e)) ↦
            moved-IsMove cfg facts c rows
              (deliver_step cfg at reply rows h true Note.no_note Note.kept_for_retry) st
              (elim e [ inl f ↦ ground arith | inr f ↦ ground arith ])
              (deliver_step-IsMove cfg facts c rows at reply h true Note.no_note Note.kept_for_retry
                (told e) found live)
      ]

  confirm_new-IsMove :
      (at : String) (reply : Reply DeliveryResult) (i : ConfirmedInput) (new : Snapshot)
      → Inserts cfg facts c rows new (receive cfg reply) at
      → is_live new.local_status ≡ true
      → (any_collides new rows ≡ true → Stays cfg facts c rows)
      → IsMove cfg facts c rows (confirm_new cfg at reply rows i new)
  unfolding confirm_new confirm_parallel deliver_step
  confirm_new-IsMove at reply i new told live clash =
      let st = confirm_new cfg at reply rows i new in
      elim (Option-cases (insert_row new rows)) [
        | inl refused ↦
            quiet-IsMove cfg facts c rows st (clash (any_collides-insert_row new rows refused))
              (ground arith) (ground arith)
        | inr (rows', e) ↦
            let (free, same) = insert_row-Free new rows rows' e in
            inserts new (receive cfg reply) at told free live (ground arith)
              (elim (sent_cases cfg new) [
                | inl (channel, f) ↦ inl (channel, ground arith)
                | inr (channel, f) ↦ inr (channel, ground arith)
              ])
      ]

module _ (cfg : Config) (facts : Facts) (reply : Reply DeliveryResult) (rows : List Snapshot)
    (i : ConfirmedInput) (asked : Asked) where
  confirm_accepted-IsMove :
      confirm_refusal cfg facts.registry i ≡ none
      → IsMove cfg facts
          (call_confirm i asked reply)
          rows
          (confirm_accepted cfg facts reply rows i asked)
  unfolding confirm_accepted
  confirm_accepted-IsMove passed =
      let c = call_confirm i asked reply in
      let st = confirm_accepted cfg facts reply rows i asked in
      let key = facts.fingerprint i in
      elim (Option-cases (by_fingerprint i.opportunity_id i.tenant_id key rows)) [
        | inr (h, e) ↦
            moved-IsMove cfg facts c rows (confirm_existing cfg asked.at reply rows h) st
              (ground arith)
              (confirm_existing-IsMove cfg facts c rows asked.at reply h
                (λ open_row. (passed, e, open_row, refl, refl))
                (by_fingerprint-RowIn i.opportunity_id i.tenant_id key rows h e)
                (λ ended. inr (inl (h, e, ended))))
        | inl e ↦ elim (Option-cases (confirm_document cfg facts rows i asked)) [
          | inl f ↦
              quiet-IsMove cfg facts c rows st (inr (inr (inl (e, f)))) (ground arith)
                (ground arith)
          | inr (doc, f) ↦
              let new = snapshot_of cfg facts rows i asked doc in
              moved-IsMove cfg facts c rows (confirm_new cfg asked.at reply rows i new) st
                (ground arith)
                (confirm_new-IsMove cfg facts c rows asked.at reply i new
                  (passed, e, (doc, f, refl), refl, refl) (new-IsLive cfg facts rows i asked doc)
                  (λ hit. inr (inr (inr (e, doc, f, hit)))))
        ]
      ]

  pub confirm-IsMove :
      IsMove cfg facts (call_confirm i asked reply) rows (confirm cfg facts reply rows i asked)
  unfolding confirm
  confirm-IsMove =
      let c = call_confirm i asked reply in
      let st = confirm cfg facts reply rows i asked in
      elim (Option-cases (confirm_refusal cfg facts.registry i)) [
        | inr (why, e) ↦
            quiet-IsMove cfg facts c rows st (inl (why, e)) (ground arith) (ground arith)
        | inl e ↦
            moved-IsMove cfg facts c rows (confirm_accepted cfg facts reply rows i asked) st
              (ground arith) (confirm_accepted-IsMove e)
      ]
