-- ===== src/SopReach/Sandbox/Sticky.antt =====
-- What a stopped action can no longer do.
use Prim.Native.String.{◌++◌}
use leads_engine.Base.{
  ℕ, suc, ◌≡◌, true, false, Option, some, String, ◌==◌, List, [], ◌∷◌, arith, itoa, lookup,
  lookup-insert, eq_iff, inl, inr, refl, Option-cases, text_cases, ap, ◌∙◌,
}
use leads_engine.SopReach.{Refusal, confirm, auto, automatic_send_off}
use leads_engine.SopReach.Decide.{decide}
use leads_engine.SopReach.Sandbox.{Reach, Callback, StoredAuto, Sandbox, new_sandbox}
use leads_engine.SopReach.Sandbox.Steps.{of_action, Server, submit_posts, with_op}
use leads_engine.SopReach.Sandbox.Steps.Chain.{
  remind_step, draft_step, confirm_step, store_draft, confirm_draft, confirm_send,
}
use leads_engine.SopReach.Sandbox.Steps.Automatic.{
  allow_step, queue_step, new_action, stopped_action, queue_action, release_step, release_action,
  release_now, release_refused, release_send, put_action, merged,
}
use leads_engine.SopReach.Sandbox.Steps.Callbacks.{
  callback_step, look_up_message, remember_callback,
}
use leads_engine.SopReach.Sandbox.Steps.Run.{
  Request, step, run, posts_of, ask_automatic, ask_remind, ask_draft, ask_confirm, ask_queue,
  ask_release, ask_callback,
}
use leads_engine.SopReach.Sandbox.Ledger.{count_posts, IsFresh}
use leads_engine.SopReach.Sandbox.Fresh.{actions-submit_state, step-IsFresh}
use leads_engine.SopReach.Sandbox.Once.{new-IsFresh, sent, count_posts-append}

-- The action is stopped, for this reason.
abbrev pub IsStopped : Sandbox → String → Option Refusal → Type 0
IsStopped s id why =
    (act : StoredAuto) × (lookup id s.actions ≡ some act)
    × (act.stopped ≡ true)
    × (act.stop_reason ≡ why)

module _ (s : Sandbox) (j : String) where
  put_action_other :
      (id : String) (act : StoredAuto)
      → (id == j) ≡ false
      → lookup j (put_action s id act).actions ≡ lookup j s.actions
  unfolding put_action
  put_action_other id act ne = rw (lookup-insert, ne)

  release_send_other :
      (server : Server) (id : String) (act : StoredAuto) (r : Reach)
      → (id == j) ≡ false
      → lookup j (release_send s server id act r).state.actions ≡ lookup j s.actions
  unfolding release_send put_action
  release_send_other server id act r ne =
      rw (lookup-insert, ne) (ap (lookup j) (actions-submit_state s server act.reach.body r))

  release_now_other :
      (server : Server) (id : String) (act : StoredAuto) (r : Reach)
      → (id == j) ≡ false
      → lookup j (release_now s server id act r).state.actions ≡ lookup j s.actions
  unfolding release_now release_refused
  release_now_other server id act r ne = ground (
    arith,
    release_send_other server id act r,
    put_action_other id (stopped_action act (decide r.input).refusal),
  )

  -- A release of another action leaves this one as it is.
  release_other :
      (server : Server) (id : String) (now : Reach)
      → (id == j) ≡ false
      → lookup j (release_step s server id now).state.actions ≡ lookup j s.actions
  unfolding release_step release_action
  release_other server id now ne = elim (Option-cases (lookup id s.actions)) [
    | inl e ↦ ground arith
    | inr (act, e) ↦ ground (
      arith,
      release_now_other server id act (merged act.reach now),
      put_action_other id (stopped_action act (some automatic_send_off)),
    )
  ]

  -- A release of a stopped action changes nothing and posts nothing.
  release_stopped :
      (server : Server) (now : Reach) (act : StoredAuto)
      → lookup j s.actions ≡ some act
      → act.stopped ≡ true
      → ((release_step s server j now).state ≡ s) × ((release_step s server j now).posts ≡ [])
  unfolding release_step release_action
  release_stopped server now act found st = (ground arith, ground arith)

  queue_other :
      (r : Reach) (act : StoredAuto)
      → IsFresh s (suc s.n)
      → lookup j s.actions ≡ some act
      → lookup j (queue_step s r).state.actions ≡ some act
  unfolding queue_step queue_action
  queue_other r act f found =
      let key = "act_" ++ itoa (suc s.n) in
      let stored = lookup-insert key j (new_action s (with_op auto r)) s.actions in
      ground (arith, eq_iff key j)

  confirm_other :
      (server : Server) (r : Reach) → (confirm_step s server r).state.actions ≡ s.actions
  unfolding confirm_step confirm_draft confirm_send
  confirm_other server r = elim (Option-cases (lookup r.draft_id s.drafts)) [
    | inl e ↦ ground arith
    | inr (d, e) ↦ ground (arith, actions-submit_state s server d.reach.body (with_op confirm r))
  ]

  remind_other : (r : Reach) → (remind_step s r).state.actions ≡ s.actions
  unfolding remind_step
  remind_other r = ground arith

  draft_other : (r : Reach) → (draft_step s r).state.actions ≡ s.actions
  unfolding draft_step store_draft
  draft_other r = ground arith

  callback_other : (c : Callback) → (callback_step s c).state.actions ≡ s.actions
  unfolding callback_step look_up_message remember_callback
  callback_other c = ground arith

  -- A stopped action keeps its stop and its reason in every step.
  step-IsStopped :
      (server : Server) (req : Request) (act : StoredAuto)
      → IsFresh s (suc s.n)
      → lookup j s.actions ≡ some act
      → act.stopped ≡ true
      → lookup j (step s server req).state.actions ≡ some act
  unfolding step allow_step
  step-IsStopped server (ask_automatic on) act f found st = found
  step-IsStopped server (ask_remind r) act f found st = rw remind_other found
  step-IsStopped server (ask_draft r) act f found st = rw draft_other found
  step-IsStopped server (ask_confirm r) act f found st = rw confirm_other found
  step-IsStopped server (ask_queue r) act f found st = queue_other r act f found
  step-IsStopped server (ask_release id now) act f found st = elim (text_cases id j) [
    | inl e ↦ rw e (rw (release_stopped server now act found st).0 found)
    | inr ne ↦ release_other server id now ne ∙ found
  ]
  step-IsStopped server (ask_callback c) act f found st = rw callback_other found

  -- No step posts for a stopped action.
  confirm_posts :
      (server : Server) (r : Reach) → count_posts (of_action j) (confirm_step s server r).posts ≡ 0
  unfolding confirm_step confirm_draft confirm_send submit_posts
  confirm_posts server r = ground arith

  release_posts :
      (server : Server) (id : String) (now : Reach)
      → (id == j) ≡ false
      → count_posts (of_action j) (release_step s server id now).posts ≡ 0
  unfolding release_step release_action release_now release_refused release_send submit_posts
  release_posts server id now ne = ground arith

  step_posts :
      (server : Server) (req : Request) (act : StoredAuto)
      → lookup j s.actions ≡ some act
      → act.stopped ≡ true
      → count_posts (of_action j) (step s server req).posts ≡ 0
  unfolding step allow_step remind_step draft_step store_draft queue_step queue_action callback_step
      look_up_message remember_callback
  step_posts server (ask_confirm r) act found st = confirm_posts server r
  step_posts server (ask_release id now) act found st = elim (text_cases id j) [
    | inl e ↦ rw e (rw (release_stopped server now act found st).1)
    | inr ne ↦ release_posts server id now ne
  ]
  step_posts server _ act found st = ground arith

release-refusal :
    (s : Sandbox) (id : String) (act : StoredAuto) (server : Server) (now : Reach)
    → lookup id s.actions ≡ some act
    → act.stopped ≡ true
    → now.input.tenant_id ≡ act.reach.input.tenant_id
    → now.input.action_tenant_id ≡ act.reach.input.tenant_id
    → (step s server (ask_release id now)).outcome.refusal ≡ act.stop_reason
unfolding step release_step release_action
release-refusal s id act server now found st t a =
    let own = eq_iff now.input.tenant_id act.reach.input.tenant_id in
    let target = eq_iff now.input.action_tenant_id act.reach.input.tenant_id in ground arith

stopped_after :
    (s : Sandbox) (id : String) (act : StoredAuto) (calls : List (Request × Server))
    → ((k : ℕ) → IsFresh s k)
    → lookup id s.actions ≡ some act
    → act.stopped ≡ true
    → (lookup id (run s calls).actions ≡ some act) × (sent (of_action id) s calls ≡ 0)
unfolding run posts_of
stopped_after s id act [] f found st = (found, refl)
stopped_after s id act ((req, server) ∷ calls) f found st =
    let next = step s server req in
    let kept = step-IsStopped s id server req act (f (suc s.n)) found st in
    let (still, none_sent) =
      stopped_after next.state id act calls (λ k. step-IsFresh s k (f k) server req) kept st in
    (
      still,
      omega (
        arith,
        count_posts-append (of_action id) next.posts (posts_of next.state calls),
        step_posts s id server req act found st,
        none_sent,
      ),
    )

run-IsFresh :
    (s : Sandbox) (calls : List (Request × Server))
    → ((k : ℕ) → IsFresh s k)
    → (k : ℕ) → IsFresh (run s calls) k
unfolding run
run-IsFresh s [] f k = f k
run-IsFresh s ((req, server) ∷ calls) f k =
    run-IsFresh (step s server req).state calls (λ m. step-IsFresh s m (f m) server req) k

-- Once a run has stopped a queued action, no further calls, in any order, change the action or
-- post for it, and a release of it by its own tenant is refused with the reason that stopped it.
pub stopped_forever :
    (url : String) (before after : List (Request × Server)) (id : String) (act : StoredAuto)
    (server : Server) (now : Reach)
    → lookup id (run (new_sandbox url) before).actions ≡ some act
    → act.stopped ≡ true
    → now.input.tenant_id ≡ act.reach.input.tenant_id
    → now.input.action_tenant_id ≡ act.reach.input.tenant_id
    → (lookup id (run (run (new_sandbox url) before) after).actions ≡ some act)
      × (sent (of_action id) (run (new_sandbox url) before) after ≡ 0)
      × ((step
            (run (run (new_sandbox url) before) after)
            server
            (ask_release id now)).outcome.refusal
          ≡ act.stop_reason)
stopped_forever url before after id act server now found st t a =
    let s = run (new_sandbox url) before in
    let fresh = run-IsFresh (new_sandbox url) before (new-IsFresh url) in
    let (kept, none_sent) = stopped_after s id act after fresh found st in
    (kept, none_sent, release-refusal (run s after) id act server now kept st t a)
