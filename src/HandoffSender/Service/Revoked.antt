-- ===== src/HandoffSender/Service/Revoked.antt =====
-- A hand-off that was revoked.
use leads_engine.Base.{
  Bool, true, false, ◌≡◌, ◌⊎◌, inl, inr, ◌||◌, Option, some, String, ◌==◌, List, [], ◌∷◌, arith,
  refl, sym, subst, All, Result, eq_iff, Bool-cases,
}
use leads_engine.HandoffSender.{Snapshot, revoked, Config, Failure, DeliveryResult}
use leads_engine.HandoffSender.Receiver.{booked}
use leads_engine.HandoffSender.Table.{
  collides, any_collides, change_row, set_delivery, update_delivery, set_revoked, mark_revoked,
}
use leads_engine.HandoffSender.Service.{booked_rows}
use leads_engine.HandoffSender.Service.Latest.{projected_onto}
use leads_engine.HandoffSender.Service.Confirm.{Facts}
use leads_engine.HandoffSender.Service.Cores.{Core, core, cores, Among, RowIn, RowIn-Among}
use leads_engine.HandoffSender.Service.Moves.Calls.{rows_after-Move}
use leads_engine.HandoffSender.Service.Moves.{Move, stays, delivers, inserts, projects, revokes}
use leads_engine.HandoffSender.Service.Statuses.{is_live}
use leads_engine.HandoffSender.Service.SameBytes.{
  Grown, Distinct, Move-Grown, Grown-Distinct, sent_same, PostedIn, run-Distinct, same_id,
}
use leads_engine.HandoffSender.Service.Run.{Call, rows_after, posted_by, run, posts_of}

-- Every row of the hand-off is revoked.
abbrev pub Gone : String → Snapshot → Type 0
Gone k h = ((h.handoff_id == k) ≡ false) ⊎ (h.local_status ≡ revoked)

-- A row has the hand-off id.
abbrev pub has_id : String → List Core → Bool
has_id k [] = false
has_id k (c ∷ cs) = c.handoff_id == k || has_id k cs

module _ (k : String) where
  Gone-live :
      (h : Snapshot) → Gone k h → is_live h.local_status ≡ true → (h.handoff_id == k) ≡ false
  Gone-live h (inl other) live = other
  Gone-live h (inr gone) live = ground arith

  All-RowIn : (h : Snapshot) (rows : List Snapshot) → All (Gone k) rows → RowIn h rows → Gone k h
  All-RowIn h [] all m = elim m [ ]
  All-RowIn h (x ∷ rows) (here, all) (inl e) = subst (Gone k) e here
  All-RowIn h (x ∷ rows) (here, all) (inr m) = All-RowIn h rows all m

  -- A change of the rows with an id that the hand-off's rows do not have.
  change_row-Gone :
      (id : String) (change : Snapshot → Snapshot) (rows : List Snapshot)
      → ((h : Snapshot) → RowIn h rows → (h.id == id) ≡ true → Gone k h → Gone k (change h))
      → All (Gone k) rows
      → All (Gone k) (change_row id change rows)
  unfolding change_row
  change_row-Gone id change [] f all = tt
  change_row-Gone id change (h ∷ rows) f (here, all) =
      let rest = change_row-Gone id change rows (λ x m. f x (inr m)) all in
      elim (Bool-cases (h.id == id)) [
        | inl e ↦ rw e (f h (inl refl) e here, rest)
        | inr e ↦ rw e (here, rest)
      ]

  -- A row in memory that is not of the hand-off is written back.
  update_delivery-Gone :
      (new : Snapshot) (at : String) (rows : List Snapshot)
      → Distinct (cores rows)
      → Among (core new) (cores rows)
      → (new.handoff_id == k) ≡ false
      → All (Gone k) rows
      → All (Gone k) (update_delivery new at rows)
  unfolding update_delivery set_delivery
  update_delivery-Gone new at rows distinct stored other all =
      change_row-Gone new.id (set_delivery new at) rows
        (λ x m e gone.
          let same =
            same_id (cores rows) (core x) (core new) distinct (RowIn-Among x rows m) stored
              ((eq_iff x.id new.id).0 e) in
          inl (subst (λ (c : Core). (c.handoff_id == k) ≡ false) (sym same) other))
        all

  set_revoked-Gone :
      (tenant at : String) (h : Snapshot) → Gone k h → Gone k (set_revoked tenant at h)
  unfolding set_revoked
  set_revoked-Gone tenant at h (inl other) = inl (ground arith)
  set_revoked-Gone tenant at h (inr gone) = inr (ground arith)

  mark_revoked-Gone :
      (id tenant at : String) (rows : List Snapshot)
      → All (Gone k) rows
      → All (Gone k) (mark_revoked id tenant at rows)
  unfolding mark_revoked set_revoked
  mark_revoked-Gone id tenant at rows all =
      change_row-Gone id (set_revoked tenant at) rows
        (λ x m e gone. set_revoked-Gone tenant at x gone) all

  has_id-free :
      (new : Snapshot) (rows : List Snapshot)
      → any_collides new rows ≡ false
      → has_id k (cores rows) ≡ true
      → (new.handoff_id == k) ≡ false
  unfolding any_collides collides cores
  has_id-free new [] free has = ground arith
  has_id-free new (h ∷ rows) free has =
      let same = eq_iff h.handoff_id k in
      let new_same = eq_iff new.handoff_id k in
      let both = eq_iff h.handoff_id new.handoff_id in ground (arith, has_id-free new rows)

  has_id-Grown :
      (rows rows' : List Snapshot)
      → Grown rows rows'
      → has_id k (cores rows) ≡ true
      → has_id k (cores rows') ≡ true
  has_id-Grown rows rows' (inl same) has = rw same has
  has_id-Grown rows rows' (inr (new, free, same)) has = rw same (ground arith)

  core-booked : (h : Snapshot) (r : Result Failure DeliveryResult) → core (booked h r) ≡ core h
  unfolding booked
  core-booked h r = ground arith

  booked_rows-Gone :
      (h : Snapshot) (r : Result Failure DeliveryResult) (at : String) (rows : List Snapshot)
      → Distinct (cores rows)
      → Among (core h) (cores rows)
      → (h.handoff_id == k) ≡ false
      → All (Gone k) rows
      → All (Gone k) (booked_rows h r at rows)
  unfolding booked_rows
  booked_rows-Gone h r at rows distinct stored other all =
      let same = core-booked h r in
      update_delivery-Gone (booked h r) at rows distinct
        (subst (λ (c : Core). Among c (cores rows)) (sym same) stored)
        (subst (λ (c : Core). (c.handoff_id == k) ≡ false) (sym same) other) all

  Move-Gone :
      {cfg : Config} {facts : Facts} {c : Call} (rows rows' : List Snapshot)
      (posted : Option Snapshot)
      → Distinct (cores rows)
      → has_id k (cores rows) ≡ true
      → All (Gone k) rows
      → Move cfg facts c rows rows' posted
      → All (Gone k) rows' × ((p : Snapshot) → posted ≡ some p → (p.handoff_id == k) ≡ false)
  unfolding cores projected_onto
  Move-Gone rows rows' posted distinct has all (stays why e q) =
      (subst (All (Gone k)) (sym e) all, λ p f. ground arith)
  Move-Gone rows rows' posted distinct has all (delivers h r at told found live e q) =
      let other = Gone-live h (All-RowIn h rows all found) live in
      (
        subst (All (Gone k)) (sym e)
            (booked_rows-Gone h r at rows distinct (RowIn-Among h rows found) other all),
        λ p f.
            subst (λ (x : Snapshot). (x.handoff_id == k) ≡ false) (sent_same _ posted h p q f)
              other,
      )
  Move-Gone rows rows' posted distinct has all (inserts new r at told free live e q) =
      let other = has_id-free new rows free has in
      let grown = Grown-Distinct rows (new ∷ rows) (inr (new, free, refl)) distinct in
      (
        subst (All (Gone k)) (sym e)
            (booked_rows-Gone new r at (new ∷ rows) grown (inl refl) other (inl other, all)),
        λ p f.
            subst (λ (x : Snapshot). (x.handoff_id == k) ≡ false) (sent_same _ posted new p q f)
              other,
      )
  Move-Gone rows rows' posted distinct has all (projects h x at told found live e q) =
      let other = Gone-live h (All-RowIn h rows all found) live in
      (
        subst (All (Gone k)) (sym e) (
            update_delivery-Gone (projected_onto x h) at rows distinct (RowIn-Among h rows found)
              other all),
        λ p f. ground arith,
      )
  Move-Gone rows rows' posted distinct has all (revokes h tenant at told found e q) = (
    subst (All (Gone k)) (sym e) (mark_revoked-Gone h.id tenant at rows all),
    λ p f. ground arith,
  )

  module _ (cfg : Config) (facts : Facts) where
    run-Gone :
        (rows : List Snapshot) (calls : List Call)
        → Distinct (cores rows)
        → has_id k (cores rows) ≡ true
        → All (Gone k) rows
        → All (Gone k) (run cfg facts rows calls)
          × ((p : Snapshot)
              → PostedIn p (posts_of cfg facts rows calls)
              → (p.handoff_id == k) ≡ false)
    unfolding run posts_of
    run-Gone rows [] distinct has all = (all, λ p m. elim m [ ])
    run-Gone rows (c ∷ calls) distinct has all =
        let next = rows_after cfg facts rows c in
        let move = rows_after-Move cfg facts rows c in
        let grown = Move-Grown rows next (posted_by cfg facts rows c) move in
        let (kept, silent) =
          Move-Gone rows next (posted_by cfg facts rows c) distinct has all move in
        let (later, quiet) =
          run-Gone next calls (Grown-Distinct rows next grown distinct)
            (has_id-Grown rows next grown has) kept in
        (later, λ p m. elim m [ inl e ↦ silent p e | inr n ↦ quiet p n ])

-- Once a run has revoked a hand-off, every further call, whatever the receiver answers, leaves it
-- revoked, and none posts it again.
pub revoked_handoff_final :
    (cfg : Config) (facts : Facts) (before after : List Call) (k : String)
    → has_id k (cores (run cfg facts [] before)) ≡ true
    → All (Gone k) (run cfg facts [] before)
    → All (Gone k) (run cfg facts (run cfg facts [] before) after)
      × ((p : Snapshot)
          → PostedIn p (posts_of cfg facts (run cfg facts [] before) after)
          → (p.handoff_id == k) ≡ false)
unfolding cores
revoked_handoff_final cfg facts before after k has gone =
    run-Gone k cfg facts (run cfg facts [] before) after (run-Distinct cfg facts [] before tt) has
      gone
