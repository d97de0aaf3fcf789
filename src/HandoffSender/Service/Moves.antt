-- ===== src/HandoffSender/Service/Moves.antt =====
-- The transitions of the table that the calls make, and what each posts.
pub mod Confirms
pub mod Calls
use leads_engine.Base.{
  Bool, true, false, ◌≡◌, inl, inr, Option, none, String, List, ◌∷◌, refl, sym, subst, Bool-cases,
  Result,
}
use leads_engine.HandoffSender.{Snapshot, Config, Reply, DeliveryResult, TargetProjection, Failure}
use leads_engine.HandoffSender.Service.Statuses.{is_live}
use leads_engine.HandoffSender.Receiver.{receive, has_channel}
use leads_engine.HandoffSender.Table.{update_delivery, mark_revoked, any_collides}
use leads_engine.HandoffSender.Service.{Note, Step, booked_rows, sent_if, deliver_step}
use leads_engine.HandoffSender.Service.Confirm.{Facts}
use leads_engine.HandoffSender.Service.Latest.{projected_onto}
use leads_engine.HandoffSender.Service.Orders.{Delivers, Inserts, Projects, Revokes, Stays, Posts}
use leads_engine.HandoffSender.Service.Cores.{RowIn}
use leads_engine.HandoffSender.Service.Run.{Call}

-- A transition of a call, with what it posts: none; a delivery of a row that is not revoked, or of a new row
-- that collides with none; a projection onto a row that is not revoked; a revocation of a row.
pub data Move (cfg : Config) (facts : Facts) (c : Call) (rows rows' : List Snapshot)
    (posted : Option Snapshot) : Type 0 where
  stays : Stays cfg facts c rows → rows' ≡ rows → posted ≡ none → Move cfg facts c rows rows' posted
  delivers :
      (h : Snapshot) (r : Result Failure DeliveryResult) (at : String)
      → Delivers cfg facts c rows h r at
      → RowIn h rows
      → is_live h.local_status ≡ true
      → rows' ≡ booked_rows h r at rows
      → Posts cfg h posted
      → Move cfg facts c rows rows' posted
  inserts :
      (new : Snapshot) (r : Result Failure DeliveryResult) (at : String)
      → Inserts cfg facts c rows new r at
      → any_collides new rows ≡ false
      → is_live new.local_status ≡ true
      → rows' ≡ booked_rows new r at (new ∷ rows)
      → Posts cfg new posted
      → Move cfg facts c rows rows' posted
  projects :
      (h : Snapshot) (p : TargetProjection) (at : String)
      → Projects cfg c rows h p at
      → RowIn h rows
      → is_live h.local_status ≡ true
      → rows' ≡ update_delivery (projected_onto p h) at rows
      → posted ≡ none
      → Move cfg facts c rows rows' posted
  revokes :
      (h : Snapshot) (tenant at : String)
      → Revokes cfg c rows h tenant at
      → RowIn h rows
      → rows' ≡ mark_revoked h.id tenant at rows
      → posted ≡ none
      → Move cfg facts c rows rows' posted

abbrev IsMove {ℓ} : {A : Type ℓ} → Config → Facts → Call → List Snapshot → Step A → Type 0
IsMove cfg facts c rows st = Move cfg facts c rows st.rows st.posted

sent_cases : (cfg : Config) (h : Snapshot) → Posts cfg h (sent_if cfg h)
unfolding sent_if
sent_cases cfg h = elim (Bool-cases (has_channel cfg)) [
  | inl e ↦ inl (e, rw e)
  | inr e ↦ inr (e, rw e)
]

module _ (cfg : Config) (facts : Facts) (c : Call) (rows : List Snapshot) where
  -- A call that posts nothing and keeps the rows.
  quiet-IsMove {ℓ} :
      {A : Type ℓ} (st : Step A)
      → Stays cfg facts c rows
      → st.rows ≡ rows
      → st.posted ≡ none
      → IsMove cfg facts c rows st
  quiet-IsMove st why same silent = stays why same silent

  -- Two steps that are equal move alike.
  moved-IsMove {ℓ} :
      {A : Type ℓ} (st st' : Step A)
      → st' ≡ st
      → IsMove cfg facts c rows st
      → IsMove cfg facts c rows st'
  moved-IsMove st st' e g = subst (IsMove cfg facts c rows) (sym e) g

  deliver_step-IsMove :
      (at : String) (reply : Reply DeliveryResult) (h : Snapshot) (dup : Bool) (good pending : Note)
      → Delivers cfg facts c rows h (receive cfg reply) at
      → RowIn h rows
      → is_live h.local_status ≡ true
      → IsMove cfg facts c rows (deliver_step cfg at reply rows h dup good pending)
  unfolding deliver_step
  deliver_step-IsMove at reply h dup good pending told found live =
      delivers h (receive cfg reply) at told found live refl (sent_cases cfg h)
