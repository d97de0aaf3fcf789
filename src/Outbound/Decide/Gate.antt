-- ===== src/Outbound/Decide/Gate.antt =====
-- When an attempt goes out, and why one is refused.
use leads_engine.Base.{
  ◌≡◌, ◌≢◌, ◌⊎◌, ◌↔◌, ◌||◌, ◌&&◌, not, ◌==◌, refl, if◌then◌else◌, Bool, true, false, none, arith,
  eq_iff,
}
use leads_engine.Outbound.{Mode, production, isolation, Op, dial, auto, retry, Input, Outcome}
use leads_engine.Outbound.Decide.{
  decide, with_event, apply_usage, blocked_by, retry_refusal, line_refusal, is_production,
  is_isolation, is_auto, decide_dial, by_op, start,
}

abbrev pub IsDialOp : Op → Type 0
IsDialOp dial = Unit
IsDialOp auto = Unit
IsDialOp retry = Unit
IsDialOp _ = ⊥

-- What must hold of the line: a marked simulation in isolation, a real line in production.
abbrev pub LineReady : Input → Mode → Type 0
LineReady i production = i.real_line ≡ true
LineReady i isolation = i.simulation ≡ true
LineReady i _ = ⊥

-- The subject may be called now.
pub record MayContact (i : Input) : Type 0 where
  pub consented : i.explicit_consent ≡ true
  pub marketing : i.marketing_allowed ≡ true
  pub not_revoked : i.revoked ≡ false
  pub subscribed : i.unsubscribed ≡ false
  pub not_suppressed : i.suppressed ≡ false
  pub not_rejected : i.rejected ≡ false
  pub in_window : i.inside_window ≡ true
  pub within_budget : i.budget_bound ≡ true
  pub not_cancelled : i.cancelled ≡ false
  pub not_taken_over : i.human_transfer ≡ false
  pub running : i.global_stop ≡ false

-- The rules on the operation itself.
abbrev pub OpReady : Input → Op → Type 0
OpReady i auto = i.production_auto ≡ true
OpReady i retry =
    (i.result_unknown ≡ false) ⊎ ((i.original_looked_up ≡ true) × (i.original_reconciled ≡ true))
OpReady i _ = Unit

-- The event and the usage leave the verdict alone.
pub ok-with_event : (i : Input) (out : Outcome) → (with_event i out).ok ≡ out.ok
unfolding with_event
ok-with_event i out = ground arith

pub ok-apply_usage : (i : Input) (out : Outcome) → (apply_usage i out).ok ≡ out.ok
unfolding apply_usage
ok-apply_usage i out = ground arith

blocked_by-none : (i : Input) (a : Bool) → blocked_by i a ≡ none → MayContact i
unfolding blocked_by
blocked_by-none i a h = ground arith

blocked_by_auto : (i : Input) → blocked_by i true ≡ none → i.production_auto ≡ true
unfolding blocked_by
blocked_by_auto i h = ground arith

MayContact-blocked_by :
    (i : Input) (a : Bool)
    → MayContact i
    → (a ≡ true → i.production_auto ≡ true)
    → blocked_by i a ≡ none
unfolding blocked_by
MayContact-blocked_by i a c p = ground arith

retry_refusal-none : (i : Input) → i.op ≡ retry → retry_refusal i ≡ none → OpReady i retry
unfolding retry_refusal
retry_refusal-none i e h = ground arith

OpReady-retry_refusal : (i : Input) → OpReady i i.op → retry_refusal i ≡ none
unfolding retry_refusal
OpReady-retry_refusal i h = ground arith

line_refusal-none :
    (i : Input)
    → (is_production i.mode || is_isolation i.mode) ≡ true
    → line_refusal i ≡ none
    → LineReady i i.mode
unfolding line_refusal
line_refusal-none i known h = ground arith

LineReady-line_refusal : (i : Input) → LineReady i i.mode → line_refusal i ≡ none
unfolding line_refusal
LineReady-line_refusal i h = ground arith

decide_dial-ok :
    (i : Input) (out : Outcome)
    → out.ok ≡ false
    → i.duplicate_task ≡ false
    → (decide_dial i out).ok ≡ true
    → (blocked_by i (is_auto i.op) ≡ none) × (retry_refusal i ≡ none) × (line_refusal i ≡ none)
unfolding decide_dial
decide_dial-ok i out closed fresh h = ground arith

ok-decide_dial :
    (i : Input) (out : Outcome)
    → i.duplicate_task ≡ false
    → blocked_by i (is_auto i.op) ≡ none
    → retry_refusal i ≡ none
    → line_refusal i ≡ none
    → (decide_dial i out).ok ≡ true
unfolding decide_dial
ok-decide_dial i out fresh b r l = ground arith

by_op-dial :
    (i : Input) (out : Outcome) (op : Op) → IsDialOp op → by_op op i out ≡ decide_dial i out
unfolding by_op
by_op-dial i out op h = ground arith

pub ok-decide :
    (i : Input)
    → (decide i).ok ≡ (
        if i.task_key == "" || (not (is_production i.mode) && not (is_isolation i.mode))
        then false
        else (by_op i.op i (start i)).ok)
unfolding decide start
ok-decide i =
    let body = by_op i.op i (start i) in
    ground (arith, ok-apply_usage i (with_event i body), ok-with_event i body)

-- Where the binding is complete, an attempt is accepted exactly as `decide_dial` says.
ok-decide_by_dial :
    (i : Input)
    → IsDialOp i.op
    → (decide i).ok ≡ (
        if i.task_key == "" || (not (is_production i.mode) && not (is_isolation i.mode))
        then false
        else (decide_dial i (start i)).ok)
ok-decide_by_dial i op = rw (ok-decide, by_op-dial i (start i) i.op op)

passed :
    (i : Input)
    → IsDialOp i.op
    → i.duplicate_task ≡ false
    → (decide i).ok ≡ true
    → (i.task_key ≢ "")
      × ((is_production i.mode || is_isolation i.mode) ≡ true)
      × (blocked_by i (is_auto i.op) ≡ none)
      × (retry_refusal i ≡ none)
      × (line_refusal i ≡ none)
passed i op fresh h =
    let keyed = eq_iff i.task_key "" in
    let gate = ok-decide_by_dial i op in
    let parts = decide_dial-ok i (start i) (unfold start in refl) fresh in
    (ground arith, ground arith, ground arith, ground arith, ground arith)

OpReady-of_passed :
    (i : Input) → blocked_by i (is_auto i.op) ≡ none → retry_refusal i ≡ none → OpReady i i.op
unfolding is_auto
OpReady-of_passed i b r = ground (arith, blocked_by_auto i, retry_refusal-none i)

known_of_LineReady :
    (i : Input) → LineReady i i.mode → (is_production i.mode || is_isolation i.mode) ≡ true
unfolding is_production is_isolation
known_of_LineReady i l = ground arith

auto_of_OpReady : (i : Input) → OpReady i i.op → is_auto i.op ≡ true → i.production_auto ≡ true
unfolding is_auto
auto_of_OpReady i o a = ground arith

-- A new attempt (no repeated task) is accepted exactly when the task has a key, the subject may be
-- contacted, the operation's own rule holds and the line is ready.
pub decide-dial_ok_iff :
    (i : Input)
    → IsDialOp i.op
    → i.duplicate_task ≡ false
    → ((decide i).ok ≡ true)
      ↔ ((i.task_key ≢ "") × MayContact i × OpReady i i.op × LineReady i i.mode)
unfolding decide
decide-dial_ok_iff i op fresh = (
  λ h.
      let (key, known, b, r, l) = passed i op fresh h in
      (
        key,
        blocked_by-none i (is_auto i.op) b,
        OpReady-of_passed i b r,
        line_refusal-none i known l,
      ),
  λ (key, contact, o, l).
      let keyed = eq_iff i.task_key "" in
      let known = known_of_LineReady i l in
      let accepted =
        ok-decide_dial i (start i) fresh
          (MayContact-blocked_by i (is_auto i.op) contact (auto_of_OpReady i o))
          (OpReady-retry_refusal i o) (LineReady-line_refusal i l) in
      rw (ok-decide_by_dial i op) (ground arith),
)
