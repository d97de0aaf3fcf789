-- ===== src/Outbound/Decide/Honest.antt =====
-- What an outcome may claim: no call was placed, nobody was reached and nothing was charged.
use leads_engine.Base.{
  ◌⊎◌, ◌≡◌, ◌≢◌, ◌↔◌, ◌||◌, Bool, true, false, none, arith, refl, Bool-cases, inl, inr, ◌&&◌, not,
  ◌==◌, if◌then◌else◌, List, [], ◌∷◌,
}
use leads_engine.Outbound.{Op, receipt, dial, auto, retry, Input, Receipt, Outcome, provider_ack}
use leads_engine.Outbound.Decide.{
  decide, with_event, apply_usage, decide_dial, decide_receipt, by_op, start, is_isolation,
  receipt_status, is_production,
}

-- The flags that would claim a call, a connection, a finding or a charge.
pub record IsHonest (i : Input) (out : Outcome) : Type 0 where
  pub not_dialed : out.dialed ≡ false
  pub not_succeeded : out.dial_succeeded ≡ false
  pub not_connected : out.real_connected ≡ false
  pub no_empty_number : out.empty_number_detected ≡ false
  pub no_charge : out.live_charge ≡ 0
  pub marked : out.simulation ≡ (is_isolation i.mode || i.simulation)

module _ (i : Input) (out : Outcome) (h : IsHonest i out) where
  decide_dial-IsHonest : IsHonest i (decide_dial i out)
  unfolding decide_dial
  decide_dial-IsHonest = ground arith

  decide_receipt-IsHonest : IsHonest i (decide_receipt i out)
  unfolding decide_receipt
  decide_receipt-IsHonest = ground arith

  by_op-IsHonest : (op : Op) → IsHonest i (by_op op i out)
  unfolding by_op
  by_op-IsHonest receipt = decide_receipt-IsHonest
  by_op-IsHonest dial = decide_dial-IsHonest
  by_op-IsHonest auto = decide_dial-IsHonest
  by_op-IsHonest retry = decide_dial-IsHonest
  by_op-IsHonest _ = ground arith

  with_event-IsHonest : IsHonest i (with_event i out)
  unfolding with_event
  with_event-IsHonest = ground arith

  apply_usage-IsHonest : IsHonest i (apply_usage i out)
  unfolding apply_usage
  apply_usage-IsHonest = ground arith

IsHonest-start : (i : Input) → IsHonest i (start i)
unfolding start
IsHonest-start i = ground arith

-- On every branch, whatever the caller claims: the outcome says that no call was placed or
-- succeeded, that nobody was connected, that no number was found empty and that nothing was
-- charged, and it is marked a simulation exactly in isolation or when the input is.
pub decide-IsHonest : (i : Input) → IsHonest i (decide i)
unfolding decide
decide-IsHonest i =
    let out = by_op i.op i (start i) in
    let begun = IsHonest-start i in
    let acted = by_op-IsHonest i (start i) begun i.op in
    let noted = with_event-IsHonest i out acted in
    let done = apply_usage-IsHonest i (with_event i out) noted in ground arith

receipts-with_event : (i : Input) (out : Outcome) → (with_event i out).receipts ≡ out.receipts
unfolding with_event
receipts-with_event i out = ground arith

receipts-apply_usage : (i : Input) (out : Outcome) → (apply_usage i out).receipts ≡ out.receipts
unfolding apply_usage
receipts-apply_usage i out = ground arith

receipts-decide :
    (i : Input)
    → (decide i).receipts ≡ (
        if i.task_key == "" || (not (is_production i.mode) && not (is_isolation i.mode))
        then []
        else (by_op i.op i (start i)).receipts)
unfolding decide start
receipts-decide i =
    let body = by_op i.op i (start i) in
    ground (arith, receipts-apply_usage i (with_event i body), receipts-with_event i body)

-- The receipts of an outcome: at most one, which says no connection and bears the mark of the
-- run; in a simulation no provider has acknowledged it.
abbrev pub ArePlain : Bool → List Receipt → Type 0
ArePlain simulation [] = Unit
ArePlain simulation (r ∷ []) =
    (r.real_connected ≡ false)
    × (r.simulation ≡ simulation)
    × ((simulation ≡ false) ⊎ (r.status ≢ provider_ack))
ArePlain simulation (_ ∷ _ ∷ _) = ⊥

receipt_status_simulated : (i : Input) (s : Bool) → s ≡ true → receipt_status i s ≢ provider_ack
unfolding receipt_status
receipt_status_simulated i s h = ground arith

by_op-ArePlain :
    (op : Op) (i : Input) (out : Outcome)
    → out.receipts ≡ []
    → ArePlain out.simulation (by_op op i out).receipts
unfolding by_op decide_dial decide_receipt
by_op-ArePlain receipt i out e = ground (arith, receipt_status_simulated i out.simulation)
by_op-ArePlain _ i out e = ground (arith, receipt_status_simulated i out.simulation)

-- Every outcome has at most one receipt, which says no connection and bears the mark of the run;
-- in isolation or in a simulation no receipt is acknowledged by a provider.
pub decide-ArePlain :
    (i : Input) → ArePlain (is_isolation i.mode || i.simulation) (decide i).receipts
decide-ArePlain i =
    rw receipts-decide
      (elim (Bool-cases
        (i.task_key == "" || (not (is_production i.mode) && not (is_isolation i.mode)))) [
          | inl e ↦ rw e tt
          | inr e ↦ rw e (unfold start in by_op-ArePlain i.op i (start i) refl)
        ])

-- An outcome has a verdict: it is either accepted, or refused with a reason.
abbrev pub HasVerdict : Outcome → Type 0
HasVerdict out = (out.ok ≡ true) ↔ (out.refusal ≡ none)

-- Every branch that is reached from an open outcome ends in a verdict.
by_op-HasVerdict :
    (op : Op) (i : Input) (out : Outcome)
    → out.ok ≡ false
    → out.refusal ≡ none
    → HasVerdict (by_op op i out)
unfolding by_op decide_dial decide_receipt
by_op-HasVerdict receipt i out c n = (λ h. ground arith, λ h. ground arith)
by_op-HasVerdict _ i out c n = (λ h. ground arith, λ h. ground arith)

with_event-HasVerdict : (i : Input) (out : Outcome) → HasVerdict out → HasVerdict (with_event i out)
unfolding with_event
with_event-HasVerdict i out v = (λ h. ground arith, λ h. ground arith)

apply_usage-HasVerdict :
    (i : Input) (out : Outcome) → HasVerdict out → HasVerdict (apply_usage i out)
unfolding apply_usage
apply_usage-HasVerdict i out v = (λ h. ground arith, λ h. ground arith)

-- Every input is decided: an outcome is accepted exactly when it has no refusal.
pub decide-HasVerdict : (i : Input) → HasVerdict (decide i)
unfolding decide
decide-HasVerdict i =
    let body = by_op i.op i (start i) in
    let reached = apply_usage-HasVerdict i (with_event i body) (
      with_event-HasVerdict i body
        (by_op-HasVerdict i.op i (start i) (unfold start in refl) (unfold start in refl))) in
    (λ h. unfold start in ground arith, λ h. unfold start in ground arith)
