-- ===== src/SopReach/Sandbox/Replay.antt =====
-- A callback that was answered once is answered the same way ever after.
use leads_engine.Base.{◌≢◌, ◌≡◌, none, some, lookup}
use leads_engine.SopReach.Sandbox.{Outcome, Callback, Sandbox}
use leads_engine.SopReach.Sandbox.Steps.Callbacks.{message_of, callback_outcome}

-- The caller names its own tenant.
abbrev pub IsOwn : Callback → Type 0
IsOwn c = (c.tenant_id ≢ "") × (c.tenant_id ≡ c.action_tenant_id)

-- What a caller reads from an answer, but for the marks of a repetition.
pub record SameAnswer (a b : Outcome) : Type 0 where
  pub ok : a.ok ≡ b.ok
  pub refusal : a.refusal ≡ b.refusal
  pub id : a.id ≡ b.id
  pub submission : a.submission ≡ b.submission
  pub delivery : a.delivery ≡ b.delivery
  pub found : a.found_original ≡ b.found_original

-- What is remembered of an answered callback.
answer_of : Sandbox → Callback → Outcome
answer_of s c = elim (lookup c.callback_id s.callbacks) [
  | some prev ↦ prev
  | none ↦ callback_outcome (message_of s c) c
]
