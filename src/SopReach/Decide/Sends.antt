-- ===== src/SopReach/Decide/Sends.antt =====
-- What an accepted submission rests on.
use leads_engine.Base.{◌≡◌, ◌≢◌, ◌⊎◌, ◌↔◌, Bool, true, false, none, arith, eq_iff, elem, ltz, pos}
use leads_engine.SopReach.{Op, confirm, retry, auto, Input, unattended}
use leads_engine.SopReach.Decide.{
  decide, bind, gate, consent_covers, stop_refusal, retry_refusal, open_level, attempts_allowed,
  send,
}

-- The action is bound: one tenant, an operator, a recipient, a version, a budget and a known way.
pub record IsBound (i : Input) : Type 0 where
  pub tenant : i.tenant_id ≢ ""
  pub same_tenant : i.tenant_id ≡ i.action_tenant_id
  pub operator : i.operator_id ≢ ""
  pub recipient : i.recipient ≢ ""
  pub version : ltz i.content_version (pos 1) ≡ false
  pub budget : i.budget_bound ≡ true
  pub way : (i.channel ≡ "sms") ⊎ (i.channel ≡ "email") ⊎ (i.channel ≡ "wecom")
  pub purpose : (i.purpose ≡ "follow_up") ⊎ (i.purpose ≡ "marketing")

-- Nothing stops it now, and the consent is for this purpose on this channel.
pub record IsOpen (i : Input) : Type 0 where
  pub no_global : i.is_global_stop ≡ false
  pub no_customer : i.is_customer_stop ≡ false
  pub not_revoked : i.is_revoked ≡ false
  pub subscribed : i.is_unsubscribed ≡ false
  pub not_rejected : i.is_rejected ≡ false
  pub within_rate : i.is_rate_limited ≡ false
  pub in_window : i.inside_window ≡ true
  pub consent_for : i.consent_purpose ≡ i.purpose
  pub consent_on : elem i.channel i.consent_channels ≡ true
  pub marketing :
      (i.purpose ≢ "marketing") ⊎ ((i.marketing_allowed ≡ true) × (i.consultation_only ≡ false))

-- The rule of each sending operation.
abbrev pub OpAllows : Input → Op → Type 0
OpAllows i confirm = Unit
OpAllows i retry =
    ((i.timed_out ≡ false) ⊎ (i.is_reconciled ≡ true))
    × (ltz (attempts_allowed i) i.attempt ≡ false)
OpAllows i auto =
    (i.level ≡ unattended) × (i.explicit_unattended ≡ true) × (i.is_human_takeover ≡ false)
OpAllows i _ = ⊥

module _ (i : Input) where
  IsBound-bind : (sending : Bool) → bind i sending ≡ none → IsBound i
  unfolding bind
  IsBound-bind sending h =
      let t = eq_iff i.tenant_id "" in
      let st = eq_iff i.tenant_id i.action_tenant_id in
      let o = eq_iff i.operator_id "" in
      let r = eq_iff i.recipient "" in
      let c1 = eq_iff i.channel "sms" in
      let c2 = eq_iff i.channel "email" in
      let c3 = eq_iff i.channel "wecom" in
      let p1 = eq_iff i.purpose "follow_up" in let p2 = eq_iff i.purpose "marketing" in ground arith

  capability_of_bind : bind i true ≡ none → i.capability ≡ true
  unfolding bind
  capability_of_bind h = ground arith

  bind-of_IsBound :
      (sending : Bool) → IsBound i → (sending ≡ true → i.capability ≡ true) → bind i sending ≡ none
  unfolding bind
  bind-of_IsBound sending b c =
      let t = eq_iff i.tenant_id "" in
      let st = eq_iff i.tenant_id i.action_tenant_id in
      let o = eq_iff i.operator_id "" in
      let r = eq_iff i.recipient "" in
      let c1 = eq_iff i.channel "sms" in
      let c2 = eq_iff i.channel "email" in
      let c3 = eq_iff i.channel "wecom" in
      let p1 = eq_iff i.purpose "follow_up" in let p2 = eq_iff i.purpose "marketing" in ground arith

  IsOpen-of_stop_refusal : stop_refusal i ≡ none → IsOpen i
  unfolding stop_refusal consent_covers
  IsOpen-of_stop_refusal h =
      let c = eq_iff i.consent_purpose i.purpose in
      let m = eq_iff i.purpose "marketing" in ground arith

  stop_refusal-of_IsOpen : IsOpen i → stop_refusal i ≡ none
  unfolding stop_refusal consent_covers
  stop_refusal-of_IsOpen o =
      let c = eq_iff i.consent_purpose i.purpose in
      let m = eq_iff i.purpose "marketing" in ground arith

  gate-none :
      gate i ≡ none → (bind i true ≡ none) × (stop_refusal i ≡ none) × (retry_refusal i ≡ none)
  unfolding gate
  gate-none h = ground arith

  none-gate : bind i true ≡ none → stop_refusal i ≡ none → retry_refusal i ≡ none → gate i ≡ none
  unfolding gate
  none-gate b s r = ground arith

abbrev pub IsSend : Op → Type 0
IsSend confirm = Unit
IsSend retry = Unit
IsSend auto = Unit
IsSend _ = ⊥

OpAllows-of_ok :
    (i : Input)
    → IsSend i.op
    → (decide i).ok ≡ true
    → (gate i ≡ none) × (retry_refusal i ≡ none → OpAllows i i.op)
unfolding decide send open_level retry_refusal
OpAllows-of_ok i s h = (ground arith, λ r. ground arith)

ok-of_OpAllows : (i : Input) → OpAllows i i.op → gate i ≡ none → (decide i).ok ≡ true
unfolding decide send open_level
ok-of_OpAllows i o g = ground arith

retry_refusal-of_OpAllows : (i : Input) → OpAllows i i.op → retry_refusal i ≡ none
unfolding retry_refusal
retry_refusal-of_OpAllows i o = ground arith

IsSend-of_OpAllows : (i : Input) (op : Op) → OpAllows i op → IsSend op
IsSend-of_OpAllows i op o = ground arith

-- A confirmation, a retry or an automatic run is accepted exactly when the action is bound, the
-- channel is able, nothing stops it, the consent covers the purpose and the channel, and the
-- operation's own rule holds: a retry has settled a timed-out original and attempts left, and an
-- automatic run was explicitly set to unattended and no human has taken over.
pub decide-send_ok_iff :
    (i : Input)
    → IsSend i.op
    → ((decide i).ok ≡ true) ↔ (IsBound i × (i.capability ≡ true) × IsOpen i × OpAllows i i.op)
decide-send_ok_iff i s = (
  λ h.
      let (g, allows) = OpAllows-of_ok i s h in
      let (b, o, r) = gate-none i g in
      (IsBound-bind i true b, capability_of_bind i b, IsOpen-of_stop_refusal i o, allows r),
  λ (b, c, o, a). ok-of_OpAllows i a (
      none-gate i (bind-of_IsBound i true b (λ _. c)) (stop_refusal-of_IsOpen i o)
        (retry_refusal-of_OpAllows i a)),
)
