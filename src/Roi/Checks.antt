-- ===== src/Roi/Checks.antt =====
-- `refuseForeign` and `knownKinds` of server/internal/roi/roi.go, and the checks before them.
use leads_engine.Base.{
  Bool, true, ◌&&◌, ◌||◌, not, Option, none, some, String, ◌==◌, List, [], ◌∷◌, if◌then◌else◌, elem,
  ltz, blank,
}
use leads_engine.Roi.{
  Link, Event, CostRef, RevenueRef, Refund, Allocation, Input, Error, cross_tenant, window,
  category, tenant, attribution_rule, kind,
}

-- `for _, row := range rows { if err := check(row); err != nil { return err } }`
unfoldable pub all_rows : {A : Type 0} → (A → Bool) → List A → Bool
all_rows test [] = true
all_rows test (x ∷ xs) = test x && all_rows test xs

abbrev pub is_own : {A : Type 0} → (A → String) → String → List A → Bool
is_own tenant_of own rows = all_rows (λ x. tenant_of x == own) rows

unfoldable pub refuse_foreign : Input → Option Error
unfolding all_rows
refuse_foreign i =
    let own = i.tenant_id in
    let experiment_own : Bool = elim i.experiment [ none ↦ true | some e ↦ e.tenant_id == own ] in
    if is_own (λ (x : Link). x.tenant_id) own i.links
      && is_own (λ (x : Event). x.tenant_id) own i.events
      && is_own (λ (x : CostRef). x.tenant_id) own i.costs
      && is_own (λ (x : RevenueRef). x.tenant_id) own i.revenues
      && is_own (λ (x : Refund). x.tenant_id) own i.refunds
      && is_own (λ (x : Allocation). x.tenant_id) own i.allocations
      && experiment_own
    then none
    else some cross_tenant

abbrev pub link_kinds : List String
link_kinds =
    "source" ∷ "campaign" ∷ "store" ∷ "tag" ∷ "asset_version" ∷ "submission" ∷ "lead"
    ∷ "opportunity" ∷ []

abbrev pub stage_keys : List String
stage_keys = "browse" ∷ "authorized_lead" ∷ "first_processing" ∷ "won" ∷ "paid" ∷ []

abbrev pub metric_kinds : List String
metric_kinds = "impression" ∷ "like" ∷ "play" ∷ "completion_rate" ∷ []

abbrev pub event_kinds : List String
event_kinds =
    "browse" ∷ "authorized_lead" ∷ "first_processing" ∷ "won" ∷ "paid" ∷ "impression" ∷ "like"
    ∷ "play" ∷ "completion_rate" ∷ "submission" ∷ "lead" ∷ "opportunity" ∷ []

abbrev pub cost_kinds : List String
cost_kinds =
    "production" ∷ "ad_spend" ∷ "reward" ∷ "generation" ∷ "storage" ∷ "channel" ∷ "human_support"
    ∷ "retry" ∷ []

abbrev pub revenue_order : List String
revenue_order = "merchant_sales" ∷ "painuo_service_order" ∷ "platform_tool" ∷ []

abbrev pub cost_authorities : List String
cost_authorities = "billing" ∷ "ad_domain" ∷ "reward_domain" ∷ "manual" ∷ "platform_verified" ∷ []

abbrev pub revenue_authorities : List String
revenue_authorities = "manual" ∷ "platform_verified" ∷ []

abbrev event_known : Event → Bool
event_known e = elem e.kind event_kinds && (e.metric_kind == "" || elem e.metric_kind metric_kinds)

abbrev cost_known : CostRef → Bool
cost_known c = elem c.kind cost_kinds && (c.authority == "" || elem c.authority cost_authorities)

abbrev revenue_known : RevenueRef → Bool
revenue_known r =
    elem r.kind revenue_order && (r.authority == "" || elem r.authority revenue_authorities)

unfoldable pub known_kinds : Input → Option Error
unfolding all_rows
known_kinds i =
    if all_rows (λ (x : Link). elem x.kind link_kinds) i.links
      && all_rows event_known i.events
      && all_rows cost_known i.costs
      && all_rows revenue_known i.revenues
      && all_rows (λ (x : Refund). x.target_kind == "cost" || x.target_kind == "revenue") i.refunds
    then none
    else some kind

abbrev pub source_chain : String
source_chain = "restricted_source_chain_v1"

-- What `Recalculate` refuses before it counts.
unfoldable pub refusal : Input → Option Error
unfolding refuse_foreign known_kinds
refusal i =
    if blank i.tenant_id
    then some tenant
    else if blank i.business_category
    then some category
    else if not (ltz i.window_start i.window_end)
    then some window
    else if not (i.attribution_rule == "") && not (i.attribution_rule == source_chain)
    then some attribution_rule
    else elim (refuse_foreign i) [ some e ↦ some e | none ↦ known_kinds i ]
