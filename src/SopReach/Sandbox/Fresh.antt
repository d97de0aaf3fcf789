-- ===== src/SopReach/Sandbox/Fresh.antt =====
-- The ids that the scheduler will give out are never in use.
use Prim.Native.String.{◌++◌}
use leads_engine.Base.{
  ℕ, suc, ◌≡◌, some, String, arith, itoa, lookup, lookup-insert, eq_iff, inl, inr, Option-cases,
}
use leads_engine.SopReach.{confirm, auto, automatic_send_off}
use leads_engine.SopReach.Decide.{decide}
use leads_engine.SopReach.Sandbox.{Reach, Callback, StoredDraft, StoredAuto, Sandbox}
use leads_engine.SopReach.Sandbox.Steps.{Server, submit_state, submit_outcome, with_op}
use leads_engine.SopReach.Sandbox.Steps.Chain.{
  remind_step, draft_step, confirm_step, new_draft, attempted_draft, store_draft, confirm_draft,
  confirm_send,
}
use leads_engine.SopReach.Sandbox.Steps.Automatic.{
  allow_step, queue_step, new_action, stopped_action, attempted_action, queue_action, release_step,
  release_action, release_now, release_refused, release_send, put_action, merged,
}
use leads_engine.SopReach.Sandbox.Steps.Callbacks.{
  callback_step, look_up_message, remember_callback,
}
use leads_engine.SopReach.Sandbox.Steps.Run.{
  Request, step, ask_automatic, ask_remind, ask_draft, ask_confirm, ask_queue, ask_release,
  ask_callback,
}
use leads_engine.SopReach.Sandbox.Ledger.{IsFresh, key_ne}

-- A submission counts one message and leaves drafts and actions alone.
module _ (s : Sandbox) (server : Server) (body : String) (r : Reach) where
  pub drafts-submit_state : (submit_state s server body r).drafts ≡ s.drafts
  unfolding submit_state
  drafts-submit_state = ground arith

  pub actions-submit_state : (submit_state s server body r).actions ≡ s.actions
  unfolding submit_state
  actions-submit_state = ground arith

  pub n-submit_state : (submit_state s server body r).n ≡ suc s.n
  unfolding submit_state
  n-submit_state = ground arith

-- Every step keeps the later ids unused.
module _ (s : Sandbox) (k : ℕ) (f : IsFresh s k) where
  remind-IsFresh : (r : Reach) → IsFresh (remind_step s r).state k
  unfolding remind_step
  remind-IsFresh r = ground arith

  store_draft-IsFresh : (r : Reach) → IsFresh (store_draft s r).state k
  unfolding store_draft
  store_draft-IsFresh r =
      let key = "drf_" ++ itoa (suc s.n) in
      let stored = lookup-insert key ("drf_" ++ itoa k) (new_draft s r) s.drafts in
      ground (arith, key_ne "drf_" (suc s.n) k)

  draft-IsFresh : (r : Reach) → IsFresh (draft_step s r).state k
  unfolding draft_step
  draft-IsFresh r = ground (arith, store_draft-IsFresh r)

  confirm_send-IsFresh :
      (server : Server) (d : StoredDraft) (r : Reach)
      → lookup r.draft_id s.drafts ≡ some d
      → IsFresh (confirm_send s server d r).state k
  unfolding confirm_send
  confirm_send-IsFresh server d r found =
      let r' = with_op confirm r in
      let s' = submit_state s server d.reach.body r' in
      let out = submit_outcome s server d.reach.body r' in
      let stored = lookup-insert r.draft_id ("drf_" ++ itoa k) (attempted_draft d out) s'.drafts in
      ground (
        arith,
        drafts-submit_state s server d.reach.body r',
        actions-submit_state s server d.reach.body r',
        n-submit_state s server d.reach.body r',
        eq_iff r.draft_id ("drf_" ++ itoa k),
      )

  confirm-IsFresh : (server : Server) (r : Reach) → IsFresh (confirm_step s server r).state k
  unfolding confirm_step confirm_draft
  confirm-IsFresh server r = elim (Option-cases (lookup r.draft_id s.drafts)) [
    | inl e ↦ ground arith
    | inr (d, e) ↦ ground (arith, confirm_send-IsFresh server d r)
  ]

  queue_action-IsFresh : (r : Reach) → IsFresh (queue_action s r).state k
  unfolding queue_action
  queue_action-IsFresh r =
      let key = "act_" ++ itoa (suc s.n) in
      let stored = lookup-insert key ("act_" ++ itoa k) (new_action s r) s.actions in
      ground (arith, key_ne "act_" (suc s.n) k)

  queue-IsFresh : (r : Reach) → IsFresh (queue_step s r).state k
  unfolding queue_step
  queue-IsFresh r = ground (arith, queue_action-IsFresh (with_op auto r))

  -- Writing back an action that is there.
  put_action-IsFresh :
      (id : String) (old act : StoredAuto)
      → lookup id s.actions ≡ some old
      → IsFresh (put_action s id act) k
  unfolding put_action
  put_action-IsFresh id old act found =
      let stored = lookup-insert id ("act_" ++ itoa k) act s.actions in
      ground (arith, eq_iff id ("act_" ++ itoa k))

  release_send-IsFresh :
      (server : Server) (id : String) (act : StoredAuto) (r : Reach)
      → lookup id s.actions ≡ some act
      → IsFresh (release_send s server id act r).state k
  unfolding release_send put_action
  release_send-IsFresh server id act r found =
      let s' = submit_state s server act.reach.body r in
      let sent = submit_outcome s server act.reach.body r in
      let out = record sent { automatic_sent = sent.created_send } in
      let stored = lookup-insert id ("act_" ++ itoa k) (attempted_action act out) s'.actions in
      ground (
        arith,
        drafts-submit_state s server act.reach.body r,
        actions-submit_state s server act.reach.body r,
        n-submit_state s server act.reach.body r,
        eq_iff id ("act_" ++ itoa k),
      )

  release_now-IsFresh :
      (server : Server) (id : String) (act : StoredAuto) (r : Reach)
      → lookup id s.actions ≡ some act
      → IsFresh (release_now s server id act r).state k
  unfolding release_now release_refused
  release_now-IsFresh server id act r found =
      let why = (decide r.input).refusal in
      ground (
        arith,
        release_send-IsFresh server id act r,
        put_action-IsFresh id act (stopped_action act why),
      )

  release-IsFresh :
      (server : Server) (id : String) (now : Reach) → IsFresh (release_step s server id now).state k
  unfolding release_step release_action
  release-IsFresh server id now = elim (Option-cases (lookup id s.actions)) [
    | inl e ↦ ground arith
    | inr (act, e) ↦ ground (
      arith,
      release_now-IsFresh server id act (merged act.reach now),
      put_action-IsFresh id act (stopped_action act (some automatic_send_off)),
    )
  ]

  callback-IsFresh : (c : Callback) → IsFresh (callback_step s c).state k
  unfolding callback_step look_up_message remember_callback
  callback-IsFresh c = ground arith

  pub step-IsFresh : (server : Server) (req : Request) → IsFresh (step s server req).state k
  unfolding step allow_step
  step-IsFresh server (ask_automatic on) = ground arith
  step-IsFresh server (ask_remind r) = remind-IsFresh r
  step-IsFresh server (ask_draft r) = draft-IsFresh r
  step-IsFresh server (ask_confirm r) = confirm-IsFresh server r
  step-IsFresh server (ask_queue r) = queue-IsFresh r
  step-IsFresh server (ask_release id now) = release-IsFresh server id now
  step-IsFresh server (ask_callback c) = callback-IsFresh c
