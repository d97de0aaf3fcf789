-- ===== src/HandoffSender/Service/Moves/Calls.antt =====
-- The transition that every call makes.
use leads_engine.Base.{
  true, false, ◌≡◌, ◌⊎◌, inl, inr, ◌&&◌, none, some, String, ◌==◌, List, arith, refl, eq_iff,
  Bool-cases, Option-cases, not,
}
use leads_engine.HandoffSender.{
  Snapshot, Config, Reply, no_answer, answered, DeliveryResult, TargetProjection,
}
use leads_engine.HandoffSender.Receiver.{
  has_channel, look_up, Lookup, projected, not_received, unreachable,
}
use leads_engine.HandoffSender.Table.{latest}
use leads_engine.HandoffSender.Service.{Note, deliver_step}
use leads_engine.HandoffSender.Service.Confirm.{Facts}
use leads_engine.HandoffSender.Service.Latest.{
  retry_latest, retry, refresh_by, refresh, revoke_row, revoke_latest, revoke, guard_refusal,
}
use leads_engine.HandoffSender.Service.Cores.{latest-RowIn}
use leads_engine.HandoffSender.Service.Run.{
  Call, call_confirm, call_retry, call_refresh, call_revoke, rows_after, posted_by,
}
use leads_engine.HandoffSender.Service.Statuses.{is_live, Status-cases}
use leads_engine.HandoffSender.Service.Asks.{guard_refusal-may_revoke, may_revoke}
use leads_engine.HandoffSender.Service.Orders.{gives_projection}
use leads_engine.HandoffSender.Service.Moves.{
  Move, stays, projects, revokes, IsMove, quiet-IsMove, moved-IsMove, deliver_step-IsMove,
}
use leads_engine.HandoffSender.Service.Moves.Confirms.{confirm-IsMove}

Lookup-cases :
    (l : Lookup)
    → ((p : TargetProjection) × (l ≡ projected p)) ⊎ (l ≡ not_received) ⊎ (l ≡ unreachable)
Lookup-cases (projected p) = inl (p, refl)
Lookup-cases not_received = inr (inl refl)
Lookup-cases unreachable = inr (inr refl)

look_up-projected :
    (cfg : Config) (reply : Reply TargetProjection) (p : TargetProjection)
    → look_up cfg reply ≡ projected p
    → (has_channel cfg ≡ true) × ((code : String) × (reply ≡ answered 200 (some p) code))
unfolding look_up
look_up-projected cfg (no_answer why) p e = absurd (ground arith)
look_up-projected cfg (answered status none code) p e = absurd (ground arith)
look_up-projected cfg (answered status (some q) code) p e = (ground arith, (code, ground arith))

look_up-gives_projection :
    (cfg : Config) (reply : Reply TargetProjection)
    → (look_up cfg reply ≡ not_received) ⊎ (look_up cfg reply ≡ unreachable)
    → gives_projection cfg reply ≡ false
unfolding look_up
look_up-gives_projection cfg (no_answer why) e = refl
look_up-gives_projection cfg (answered status none code) e = refl
look_up-gives_projection cfg (answered status (some p) code) e = elim e [
  | inl f ↦ ground arith
  | inr f ↦ ground arith
]

module _ (cfg : Config) (facts : Facts) (at : String) (rows : List Snapshot)
    (opportunity tenant : String) where
  module _ (reply : Reply DeliveryResult) (requested : String) where
    retry_latest-IsMove :
        (h : Snapshot)
        → latest opportunity tenant rows ≡ some h
        → IsMove cfg facts
            (call_retry opportunity tenant requested at reply)
            rows
            (retry_latest cfg at reply rows requested h)
    unfolding retry_latest
    retry_latest-IsMove h newest =
        let c = call_retry opportunity tenant requested at reply in
        let st = retry_latest cfg at reply rows requested h in
        let sent = deliver_step cfg at reply rows h false Note.resent Note.still_pending in
        let found = latest-RowIn opportunity tenant rows h newest in
        let blank = eq_iff requested "" in
        let own = eq_iff requested h.handoff_id in
        elim (Bool-cases (not (requested == "") && not (requested == h.handoff_id))) [
          | inl old ↦
              quiet-IsMove cfg facts c rows st
                (inr (h, newest, inr (λ f. ground arith, λ f. ground arith))) (ground arith)
                (ground arith)
          | inr current ↦
              let named : (requested ≡ "") ⊎ (requested ≡ h.handoff_id) = ground arith in
              let goes =
                deliver_step-IsMove cfg facts c rows at reply h false Note.resent Note.still_pending
                  (newest, named, refl, refl) found in
              elim (Status-cases h.local_status) [
                | inl e ↦
                    quiet-IsMove cfg facts c rows st (inr (h, newest, inl e)) (ground arith)
                      (ground arith)
                | inr (inl e) ↦
                    moved-IsMove cfg facts c rows sent st (ground arith) (goes (ground arith))
                | inr (inr (live, e)) ↦
                    moved-IsMove cfg facts c rows sent st
                      (elim e [ inl f ↦ ground arith | inr f ↦ ground arith ]) (goes live)
              ]
        ]

    retry-IsMove :
        IsMove cfg facts
          (call_retry opportunity tenant requested at reply)
          rows
          (retry cfg at reply rows opportunity tenant requested)
    unfolding retry
    retry-IsMove =
        let c = call_retry opportunity tenant requested at reply in
        let st = retry cfg at reply rows opportunity tenant requested in
        elim (Option-cases (latest opportunity tenant rows)) [
          | inl e ↦ quiet-IsMove cfg facts c rows st (inl e) (ground arith) (ground arith)
          | inr (h, e) ↦
              moved-IsMove cfg facts c rows (retry_latest cfg at reply rows requested h) st
                (ground arith) (retry_latest-IsMove h e)
        ]

  module _ (reply : Reply TargetProjection) where
    refresh_by-IsMove :
        (h : Snapshot)
        → latest opportunity tenant rows ≡ some h
        → is_live h.local_status ≡ true
        → IsMove cfg facts
            (call_refresh opportunity tenant at reply)
            rows
            (refresh_by at rows h (look_up cfg reply))
    unfolding refresh_by
    refresh_by-IsMove h newest live = elim (Lookup-cases (look_up cfg reply)) [
      | inl (p, e) ↦
          let (channel, told) = look_up-projected cfg reply p e in
          let found = latest-RowIn opportunity tenant rows h newest in
          rw e (projects h p at (newest, channel, told, refl) found live refl refl)
      | inr e ↦
          let why = look_up-gives_projection cfg reply e in
          elim e [
            | inl f ↦ rw f (stays (inr (inr why)) refl refl)
            | inr f ↦ rw f (stays (inr (inr why)) refl refl)
          ]
    ]

    refresh-IsMove :
        IsMove cfg facts
          (call_refresh opportunity tenant at reply)
          rows
          (refresh cfg at reply rows opportunity tenant)
    unfolding refresh
    refresh-IsMove =
        let c = call_refresh opportunity tenant at reply in
        let st = refresh cfg at reply rows opportunity tenant in
        elim (Option-cases (latest opportunity tenant rows)) [
          | inl e ↦ quiet-IsMove cfg facts c rows st (inl e) (ground arith) (ground arith)
          | inr (h, e) ↦
              let by = refresh_by at rows h (look_up cfg reply) in
              let goes = refresh_by-IsMove h e in
              elim (Status-cases h.local_status) [
                | inl f ↦
                    quiet-IsMove cfg facts c rows st (inr (inl (h, e, f))) (ground arith)
                      (ground arith)
                | inr (inl f) ↦
                    moved-IsMove cfg facts c rows by st (ground arith) (goes (ground arith))
                | inr (inr (live, f)) ↦
                    moved-IsMove cfg facts c rows by st
                      (elim f [ inl g ↦ ground arith | inr g ↦ ground arith ]) (goes live)
              ]
        ]

    revoke_latest-IsMove :
        (h : Snapshot)
        → latest opportunity tenant rows ≡ some h
        → is_live h.local_status ≡ true
        → IsMove cfg facts
            (call_revoke opportunity tenant at reply)
            rows
            (revoke_latest cfg at reply rows tenant h)
    unfolding revoke_latest revoke_row
    revoke_latest-IsMove h newest live =
        let c = call_revoke opportunity tenant at reply in
        let st = revoke_latest cfg at reply rows tenant h in
        let guard = guard_refusal-may_revoke cfg reply h live in
        elim (Bool-cases (not (h.target_status == "") && not (h.target_status == "draft"))) [
          | inl taken ↦
              quiet-IsMove cfg facts c rows st (inr (h, newest, inr (ground arith))) (ground arith)
                (ground arith)
          | inr draft ↦ elim (Option-cases (guard_refusal cfg reply h.local_status)) [
            | inr (why, e) ↦
                quiet-IsMove cfg facts c rows st (inr (h, newest, inr (ground arith)))
                  (ground arith) (ground arith)
            | inl e ↦
                let may : may_revoke cfg reply h ≡ true = ground arith in
                moved-IsMove cfg facts c rows (revoke_row at rows h tenant) st (ground arith) (
                  revokes h tenant at (newest, live, may, refl, refl)
                    (latest-RowIn opportunity tenant rows h newest) refl refl)
          ]
        ]

    revoke-IsMove :
        IsMove cfg facts
          (call_revoke opportunity tenant at reply)
          rows
          (revoke cfg at reply rows opportunity tenant)
    unfolding revoke
    revoke-IsMove =
        let c = call_revoke opportunity tenant at reply in
        let st = revoke cfg at reply rows opportunity tenant in
        elim (Option-cases (latest opportunity tenant rows)) [
          | inl e ↦ quiet-IsMove cfg facts c rows st (inl e) (ground arith) (ground arith)
          | inr (h, e) ↦
              let goes = revoke_latest-IsMove h e in
              let by = revoke_latest cfg at reply rows tenant h in
              elim (Status-cases h.local_status) [
                | inl f ↦
                    quiet-IsMove cfg facts c rows st (inr (h, e, inl f)) (ground arith)
                      (ground arith)
                | inr (inl f) ↦
                    moved-IsMove cfg facts c rows by st (ground arith) (goes (ground arith))
                | inr (inr (live, f)) ↦
                    moved-IsMove cfg facts c rows by st
                      (elim f [ inl g ↦ ground arith | inr g ↦ ground arith ]) (goes live)
              ]
        ]

-- Every call, whatever the receiver answers, makes the one transition that is its own, or keeps the
-- table and posts nothing for one of its own reasons, which Orders lists. A confirmation whose settings
-- and input pass delivers the row with its fingerprint, if that is neither delivered nor revoked, or,
-- where there is none, inserts and delivers the snapshot that it makes, which collides with no row. A
-- retry delivers the latest row, which is the one it names if it names one, if that is not revoked.
-- Both book what the receiver answered. A refresh puts the projection of a 200 answer on the latest
-- row, if that is not revoked; a revocation marks the latest row, if that is not revoked and its status
-- and the receiver's answer allow it. What is posted is the row that is delivered, where the channel is
-- configured.
pub rows_after-Move :
    (cfg : Config) (facts : Facts) (rows : List Snapshot) (c : Call)
    → Move cfg facts c rows (rows_after cfg facts rows c) (posted_by cfg facts rows c)
unfolding rows_after posted_by
rows_after-Move cfg facts rows (call_confirm i asked reply) =
    confirm-IsMove cfg facts reply rows i asked
rows_after-Move cfg facts rows (call_retry opportunity tenant requested at reply) =
    retry-IsMove cfg facts at rows opportunity tenant reply requested
rows_after-Move cfg facts rows (call_refresh opportunity tenant at reply) =
    refresh-IsMove cfg facts at rows opportunity tenant reply
rows_after-Move cfg facts rows (call_revoke opportunity tenant at reply) =
    revoke-IsMove cfg facts at rows opportunity tenant reply
