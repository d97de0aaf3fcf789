-- ===== src/SopReach/Sandbox/Ledger.antt =====
-- How often each draft and each action has been posted.
use text.Mathlib.TextLemmas.{append_cancel_left}
use Prim.Native.String.{◌++◌}
use leads_engine.Base.{
  ℕ, ◌+◌, ◌≤◌, ◌<◌, ◌≡◌, Bool, false, Option, none, some, String, ◌==◌, List, [], ◌∷◌,
  if◌then◌else◌, arith, itoa, itoa-injective, lookup, text_cases, inl, inr,
}
use leads_engine.SopReach.Sandbox.{StoredDraft, StoredAuto, FixtureMessage, Sandbox}
use leads_engine.SopReach.Sandbox.Steps.{Source, of_draft, of_action, Step}

abbrev pub is_from : Source → Source → Bool
is_from (of_draft a) (of_draft b) = a == b
is_from (of_action a) (of_action b) = a == b
is_from _ _ = false

abbrev pub count_posts : Source → List (Source × FixtureMessage) → ℕ
count_posts src [] = 0
count_posts src ((from, _) ∷ rest) = (if is_from from src then 1 else 0) + count_posts src rest

abbrev draft_spent : Option StoredDraft → ℕ
draft_spent none = 0
draft_spent (some d) = if d.attempted then 1 else 0

abbrev action_spent : Option StoredAuto → ℕ
action_spent none = 0
action_spent (some a) = if a.attempted then 1 else 0

-- The attempts that the state remembers of a source.
abbrev pub spent : Sandbox → Source → ℕ
spent s (of_draft id) = draft_spent (lookup id s.drafts)
spent s (of_action id) = action_spent (lookup id s.actions)

-- The ids with the number `k` are not in use, if they are still to be given out.
pub record IsFresh (s : Sandbox) (k : ℕ) : Type 0 where
  pub drafts : s.n < k → lookup ("drf_" ++ itoa k) s.drafts ≡ none
  pub actions : s.n < k → lookup ("act_" ++ itoa k) s.actions ≡ none

-- A step posts for the draft or the action `j` only what the state then remembers as an attempt.
pub record IsCounted (s : Sandbox) (st : Step) (j : String) : Type 0 where
  pub drafts :
      spent s (of_draft j) + count_posts (of_draft j) st.posts ≤ spent st.state (of_draft j)
  pub actions :
      spent s (of_action j) + count_posts (of_action j) st.posts ≤ spent st.state (of_action j)

pub key_ne : (p : String) (m n : ℕ) → m < n → ((p ++ itoa m) == (p ++ itoa n)) ≡ false
key_ne p m n h = elim (text_cases (p ++ itoa m) (p ++ itoa n)) [
  | inl e ↦ absurd (omega (arith, itoa-injective m n (append_cancel_left p (itoa m) (itoa n) e)))
  | inr e ↦ e
]
