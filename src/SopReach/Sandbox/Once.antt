-- ===== src/SopReach/Sandbox/Once.antt =====
-- A stored draft or queued action is posted at most once, whatever is called in whatever order.
use Prim.Native.String.{◌++◌}
use leads_engine.Base.{
  ℕ, suc, ◌+◌, ◌≤◌, ◌≡◌, false, Option, some, String, List, [], ◌∷◌, ◌++◌ as ◌++ₗ◌, arith, itoa,
  lookup, lookup-insert, eq_iff, inl, inr, Option-cases,
}
use leads_engine.SopReach.{Refusal, confirm, auto, automatic_send_off}
use leads_engine.SopReach.Decide.{decide}
use leads_engine.SopReach.Sandbox.{
  Reach, Callback, StoredDraft, StoredAuto, FixtureMessage, Sandbox, new_sandbox,
}
use leads_engine.SopReach.Sandbox.Steps.{
  Source, of_draft, of_action, Step, Server, submit_state, submit_outcome, submit_posts, with_op,
}
use leads_engine.SopReach.Sandbox.Steps.Chain.{
  remind_step, draft_step, confirm_step, new_draft, attempted_draft, store_draft, confirm_draft,
  confirm_send,
}
use leads_engine.SopReach.Sandbox.Steps.Automatic.{
  allow_step, queue_step, new_action, stopped_action, attempted_action, queue_action, release_step,
  release_action, release_now, release_refused, release_send, put_action, merged,
}
use leads_engine.SopReach.Sandbox.Steps.Callbacks.{
  callback_step, look_up_message, remember_callback,
}
use leads_engine.SopReach.Sandbox.Steps.Run.{
  Request, step, run, posts_of, ask_automatic, ask_remind, ask_draft, ask_confirm, ask_queue,
  ask_release, ask_callback,
}
use leads_engine.SopReach.Sandbox.Ledger.{spent, count_posts, IsFresh, IsCounted}
use leads_engine.SopReach.Sandbox.Fresh.{drafts-submit_state, actions-submit_state, step-IsFresh}

-- Whatever a step posts is remembered as the attempt of its draft or action, which had none.
module _ (s : Sandbox) (j : String) (f : IsFresh s (suc s.n)) where
  remind-IsCounted : (r : Reach) → IsCounted s (remind_step s r) j
  unfolding remind_step
  remind-IsCounted r = ground arith

  store_draft-IsCounted : (r : Reach) → IsCounted s (store_draft s r) j
  unfolding store_draft
  store_draft-IsCounted r =
      let key = "drf_" ++ itoa (suc s.n) in
      let stored = lookup-insert key j (new_draft s r) s.drafts in ground (arith, eq_iff key j)

  draft-IsCounted : (r : Reach) → IsCounted s (draft_step s r) j
  unfolding draft_step
  draft-IsCounted r = ground (arith, store_draft-IsCounted r)

  confirm_send-IsCounted :
      (server : Server) (d : StoredDraft) (r : Reach)
      → lookup r.draft_id s.drafts ≡ some d
      → d.attempted ≡ false
      → IsCounted s (confirm_send s server d r) j
  unfolding confirm_send submit_posts
  confirm_send-IsCounted server d r found first =
      let r' = with_op confirm r in
      let s' = submit_state s server d.reach.body r' in
      let out = submit_outcome s server d.reach.body r' in
      let stored = lookup-insert r.draft_id j (attempted_draft d out) s'.drafts in
      ground (
        arith,
        drafts-submit_state s server d.reach.body r',
        actions-submit_state s server d.reach.body r',
        eq_iff r.draft_id j,
      )

  confirm-IsCounted : (server : Server) (r : Reach) → IsCounted s (confirm_step s server r) j
  unfolding confirm_step confirm_draft
  confirm-IsCounted server r = elim (Option-cases (lookup r.draft_id s.drafts)) [
    | inl e ↦ ground arith
    | inr (d, e) ↦ ground (arith, confirm_send-IsCounted server d r)
  ]

  queue_action-IsCounted : (r : Reach) → IsCounted s (queue_action s r) j
  unfolding queue_action
  queue_action-IsCounted r =
      let key = "act_" ++ itoa (suc s.n) in
      let stored = lookup-insert key j (new_action s r) s.actions in ground (arith, eq_iff key j)

  queue-IsCounted : (r : Reach) → IsCounted s (queue_step s r) j
  unfolding queue_step
  queue-IsCounted r = ground (arith, queue_action-IsCounted (with_op auto r))

  release_send-IsCounted :
      (server : Server) (id : String) (act : StoredAuto) (r : Reach)
      → lookup id s.actions ≡ some act
      → act.attempted ≡ false
      → IsCounted s (release_send s server id act r) j
  unfolding release_send put_action submit_posts
  release_send-IsCounted server id act r found first =
      let s' = submit_state s server act.reach.body r in
      let sent = submit_outcome s server act.reach.body r in
      let out = record sent { automatic_sent = sent.created_send } in
      let stored = lookup-insert id j (attempted_action act out) s'.actions in
      ground (
        arith,
        drafts-submit_state s server act.reach.body r,
        actions-submit_state s server act.reach.body r,
        eq_iff id j,
      )

  -- Stopping an action keeps what it has attempted.
  stop-spent :
      (id : String) (act : StoredAuto) (why : Option Refusal)
      → lookup id s.actions ≡ some act
      → (spent (put_action s id (stopped_action act why)) (of_action j) ≡ spent s (of_action j))
        × (spent (put_action s id (stopped_action act why)) (of_draft j) ≡ spent s (of_draft j))
  unfolding put_action stopped_action
  stop-spent id act why found =
      let stored = lookup-insert id j (stopped_action act why) s.actions in
      ground (arith, eq_iff id j)

  release_now-IsCounted :
      (server : Server) (id : String) (act : StoredAuto) (r : Reach)
      → lookup id s.actions ≡ some act
      → act.attempted ≡ false
      → IsCounted s (release_now s server id act r) j
  unfolding release_now release_refused
  release_now-IsCounted server id act r found first =
      ground
        (arith, release_send-IsCounted server id act r, stop-spent id act (decide r.input).refusal)

  release-IsCounted :
      (server : Server) (id : String) (now : Reach) → IsCounted s (release_step s server id now) j
  unfolding release_step release_action
  release-IsCounted server id now = elim (Option-cases (lookup id s.actions)) [
    | inl e ↦ ground arith
    | inr (act, e) ↦ ground (
      arith,
      release_now-IsCounted server id act (merged act.reach now),
      stop-spent id act (some automatic_send_off),
    )
  ]

  callback-IsCounted : (c : Callback) → IsCounted s (callback_step s c) j
  unfolding callback_step look_up_message remember_callback
  callback-IsCounted c = ground arith

  step-IsCounted : (server : Server) (req : Request) → IsCounted s (step s server req) j
  unfolding step allow_step
  step-IsCounted server (ask_automatic on) = ground arith
  step-IsCounted server (ask_remind r) = remind-IsCounted r
  step-IsCounted server (ask_draft r) = draft-IsCounted r
  step-IsCounted server (ask_confirm r) = confirm-IsCounted server r
  step-IsCounted server (ask_queue r) = queue-IsCounted r
  step-IsCounted server (ask_release id now) = release-IsCounted server id now
  step-IsCounted server (ask_callback c) = callback-IsCounted c

-- How often the run posts for a source.
abbrev pub sent : Source → Sandbox → List (Request × Server) → ℕ
sent src s calls = count_posts src (posts_of s calls)

pub count_posts-append :
    (src : Source) (xs ys : List (Source × FixtureMessage))
    → count_posts src (xs ++ₗ ys) ≡ count_posts src xs + count_posts src ys
count_posts-append src [] ys = omega arith
count_posts-append src ((from, m) ∷ xs) ys = omega (arith, count_posts-append src xs ys)

spent-le-one : (s : Sandbox) (src : Source) → spent s src ≤ 1
spent-le-one s (of_draft id) = ground arith
spent-le-one s (of_action id) = ground arith

counted_for :
    (s : Sandbox) (st : Step) (src : Source)
    → ((j : String) → IsCounted s st j)
    → spent s src + count_posts src st.posts ≤ spent st.state src
counted_for s st (of_draft id) c = (c id).drafts
counted_for s st (of_action id) c = (c id).actions

sent-le-spent :
    (s : Sandbox) (calls : List (Request × Server)) (src : Source)
    → ((k : ℕ) → IsFresh s k)
    → spent s src + sent src s calls ≤ spent (run s calls) src
unfolding run posts_of
sent-le-spent s [] src f = omega arith
sent-le-spent s ((req, server) ∷ calls) src f =
    let st = step s server req in
    omega (
      arith,
      count_posts-append src st.posts (posts_of st.state calls),
      counted_for s st src (λ j. step-IsCounted s j (f (suc s.n)) server req),
      sent-le-spent st.state calls src (λ k. step-IsFresh s k (f k) server req),
    )

pub new-IsFresh : (url : String) (k : ℕ) → IsFresh (new_sandbox url) k
unfolding lookup
new-IsFresh url k = ground arith

-- In any run of a new scheduler, whatever is called in whatever order and whatever the fixture
-- server answers, each stored draft and each queued action is posted at most once.
pub posted_once :
    (url : String) (calls : List (Request × Server)) (src : Source)
    → sent src (new_sandbox url) calls ≤ 1
posted_once url calls src = omega (
  arith,
  spent-le-one (run (new_sandbox url) calls) src,
  sent-le-spent (new_sandbox url) calls src (new-IsFresh url),
)
