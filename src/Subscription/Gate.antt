-- ===== src/Subscription/Gate.antt =====
-- When an AI action may run, and what is said where it may not.
use leads_engine.Base.{
  pos, ltz, true, false, ◌≡◌, ◌≢◌, ◌↔◌, ◌⊎◌, inl, inr, String, ◌==◌, arith, eq_iff, text_cases,
  refl,
}
use leads_engine.Subscription.{
  price, payer_allowed, AiInput, already_committed, quote_stale, insufficient_balance, quoted,
  Decision, payer_of, auto_execute, decide_ai,
}

-- The payer is the organization itself, or the other account that it has authorized.
abbrev pub IsPayer : AiInput → Type 0
IsPayer i =
    (i.payer_account_id ≢ "")
    × (i.org_account_id ≢ "")
    × (((i.payer_kind ≡ "organization") × (i.payer_account_id ≡ i.org_account_id))
        ⊎ ((i.payer_kind ≡ "authorized")
            × (i.payer_account_id ≡ i.authorized_account)
            × (i.payer_account_id ≢ i.org_account_id)))

kinds_differ : (kind : String) → kind ≡ "authorized" → (kind == "organization") ≡ false
kinds_differ kind e = rw e refl

payer_of-IsPayer : (i : AiInput) → payer_of i ≡ true → IsPayer i
unfolding payer_of payer_allowed
payer_of-IsPayer i h =
    let payer = eq_iff i.payer_account_id "" in
    let org = eq_iff i.org_account_id "" in
    let same = eq_iff i.payer_account_id i.org_account_id in
    let authorized = eq_iff i.payer_account_id i.authorized_account in
    (
      λ e. ground arith,
      λ e. ground arith,
      elim (text_cases i.payer_kind "organization") [
        | inl e ↦ let kind = eq_iff i.payer_kind "organization" in inl (e, ground arith)
        | inr e ↦ elim (text_cases i.payer_kind "authorized") [
          | inl f ↦ inr (f, ground arith, λ g. ground arith)
          | inr f ↦ absurd (ground arith)
        ]
      ],
    )

IsPayer-payer_of : (i : AiInput) → IsPayer i → payer_of i ≡ true
unfolding payer_of payer_allowed
IsPayer-payer_of i (payer_given, org_given, inl (kind, same)) =
    let payer = eq_iff i.payer_account_id "" in
    let org = eq_iff i.org_account_id "" in
    let is_same = eq_iff i.payer_account_id i.org_account_id in
    let is_kind = eq_iff i.payer_kind "organization" in ground arith
IsPayer-payer_of i (payer_given, org_given, inr (kind, same, other)) =
    let payer = eq_iff i.payer_account_id "" in
    let org = eq_iff i.org_account_id "" in
    let is_org = eq_iff i.payer_account_id i.org_account_id in
    let is_same = eq_iff i.payer_account_id i.authorized_account in
    let empty = eq_iff i.authorized_account "" in
    let differs = kinds_differ i.payer_kind kind in
    let is_kind = eq_iff i.payer_kind "authorized" in ground arith

-- The quote that was seen is the one in force.
abbrev pub IsFresh : AiInput → Type 0
IsFresh i = (i.seen_revision ≢ "") × (i.seen_revision ≡ i.quote_revision)

-- Everything that an AI action needs.
abbrev pub MayRun : AiInput → Type 0
MayRun i =
    ((price i.action).billable ≡ true)
    × IsPayer i
    × (i.already_committed ≡ false)
    × IsFresh i
    × (i.explicit_confirm ≡ true)
    × (ltz i.balance_cents (price i.action).cents ≡ false)

decide_ai-MayRun : (i : AiInput) → (decide_ai i).execute ≡ true → MayRun i
unfolding decide_ai auto_execute
decide_ai-MayRun i h =
    let seen = eq_iff i.seen_revision "" in
    let same = eq_iff i.seen_revision i.quote_revision in
    (
      ground arith,
      payer_of-IsPayer i (ground arith),
      ground arith,
      ((λ e. ground arith), ground arith),
      ground arith,
      ground arith,
    )

MayRun-decide_ai : (i : AiInput) → MayRun i → (decide_ai i).execute ≡ true
unfolding decide_ai auto_execute
MayRun-decide_ai i (billable, payer, uncommitted, (seen, same), confirmed, enough) =
    let paid = IsPayer-payer_of i payer in
    let is_seen = eq_iff i.seen_revision "" in
    let is_same = eq_iff i.seen_revision i.quote_revision in ground arith

-- An AI action may run exactly when it has a price, the payer is the organization's own account or
-- the one other account that it has authorized, it was not committed before, the quote that was
-- seen is the one in force, the person has confirmed it, and the balance covers the price.
pub decide_ai-execute_iff : (i : AiInput) → ((decide_ai i).execute ≡ true) ↔ MayRun i
decide_ai-execute_iff i = (decide_ai-MayRun i, MayRun-decide_ai i)

-- What a decision says beside its reason.
abbrev pub IsPlainly : AiInput → Decision → Type 0
IsPlainly i d =
    (d.live_charge ≡ pos 0)
    × ((d.execute ≡ true) ↔ (d.reason ≡ quoted))
    × ((d.duplicate ≡ true) ↔ (d.reason ≡ already_committed))
    × ((d.reread ≡ true) ↔ (d.reason ≡ quote_stale))
    × ((d.billing_center ≡ "billing_center") ↔ (d.reason ≡ insufficient_balance))
    × ((d.return_to ≡ "") ⊎ (d.return_to ≡ i.return_to))

centre_named : ◌≢◌ {A = String} "" "billing_center"
centre_named = ground (arith, eq_iff "" "billing_center")

-- Every decision charges nothing; it runs the action, reports a duplicate, asks to read the quote
-- again, or points at the billing center exactly for the reason that says so, and it sends the
-- caller back nowhere or to the path that was given.
pub decide_ai-IsPlainly : (i : AiInput) → IsPlainly i (decide_ai i)
unfolding decide_ai
decide_ai-IsPlainly i =
    let named = centre_named in
    (
      ground arith,
      ((λ h. ground arith), (λ h. ground arith)),
      ((λ h. ground arith), (λ h. ground arith)),
      ((λ h. ground arith), (λ h. ground arith)),
      ((λ h. ground arith), (λ h. ground arith)),
      ground arith,
    )
