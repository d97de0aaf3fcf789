-- ===== src/SopReach/Decide/Quiet.antt =====
-- What a decision never does, and what it does not depend on.
use leads_engine.Base.{◌≡◌, ◌≢◌, ◌⊎◌, Bool, true, false, none, [], ◌∷◌, arith, ℤ, pos, List, refl}
use leads_engine.SopReach.{
  Op, remind, draft, user_reply, other_op, Input, Verdict, Record, recorded, internal_reminder,
  pending_draft, channel_submission, channel_delivery, reply_of_user, pending_send, undelivered,
  blocked,
}
use leads_engine.SopReach.Decide.{
  decide, bind, gate, consent_covers, stop_refusal, retry_refusal, open_level, attempts_allowed,
  by_op,
}

-- The facts that an accepted operation leaves.
abbrev pub facts : Op → List Record
facts remind = record { kind = internal_reminder; status = recorded } ∷ []
facts draft = record { kind = pending_draft; status = recorded } ∷ []
facts user_reply = record { kind = reply_of_user; status = recorded } ∷ []
facts (other_op _) = []
facts _ =
    record { kind = channel_submission; status = pending_send }
    ∷ record { kind = channel_delivery; status = undelivered }
    ∷ []

-- A refusal leaves nothing, or one blocked submission.
abbrev pub IsTrace : List Record → Type 0
IsTrace rs = (rs ≡ []) ⊎ (rs ≡ record { kind = channel_submission; status = blocked } ∷ [])

-- Every decision says that nothing was delivered and nothing charged. An accepted one has no
-- refusal and exactly the facts of its operation, a submission among them only as waiting to be sent and undelivered;
-- a refused one has a reason and at most one blocked submission.
pub decide-facts :
    (i : Input)
    → ((decide i).delivered ≡ false)
      × ((decide i).live_charge ≡ pos 0)
      × ((((decide i).ok ≡ true) × ((decide i).refusal ≡ none) × ((decide i).records ≡ facts i.op))
          ⊎ (((decide i).ok ≡ false) × ((decide i).refusal ≢ none) × IsTrace (decide i).records))
unfolding decide
decide-facts i = (ground arith, ground arith, ground arith)

by_op-ignores :
    (op : Op) (i : Input) (balance score : ℤ) (live : Bool) (out : Verdict)
    → by_op op (record i { balance_cents = balance; ai_score = score; live_channel = live }) out
      ≡ by_op op i out
unfolding by_op gate bind stop_refusal retry_refusal consent_covers attempts_allowed
by_op-ignores remind i balance score live out = refl
by_op-ignores _ i balance score live out = refl

-- The balance, the score and a live channel change no decision.
pub decide-ignores :
    (i : Input) (balance score : ℤ) (live : Bool)
    → decide (record i { balance_cents = balance; ai_score = score; live_channel = live })
      ≡ decide i
unfolding decide open_level
decide-ignores i balance score live = rw by_op-ignores
