-- ===== src/Roi/Report/Examples.antt =====
-- A bundle with a cost that is cited twice, a refund, an allocation and a payment.
use leads_engine.Base.{
  ◌≡◌, inl, true, false, String, ◌==◌, [], ◌∷◌, none, some, ok, refl, All, ◌+◌, ◌≤◌, ltz, pos,
  negsuc, In, is_nil, elem, trim_space, lookup, insert, add64, sub64, wrap64, text_less, insert_by,
  sort_by, pos_part, arith,
}
use leads_engine.Roi.{
  Event, CostRef, RevenueRef, Refund, Allocation, AllocationLine, Input, CountedCost, in_window,
  dedupe,
}
use leads_engine.Roi.Checks.{all_rows, refuse_foreign, known_kinds, refusal}
use leads_engine.Roi.Costs.{
  cost_rows, by_asset, assets_of, ids_of, same_amount, group_conflict, group_drop, drop_ids,
  any_conflict, keep_rows, count_costs, count_revenues,
}
use leads_engine.Roi.Costs.Once.{count_costs-once}
use leads_engine.Roi.Refunds.{
  refunded, refund_row, refund_all, of_kind, refund_kind, refund_costs, refund_revenues,
}
use leads_engine.Roi.Refunds.Exact.{IsAmount, cost_net, cost_refunds, sum_to, refund_costs-exact}
use leads_engine.Roi.Allocate.{
  production_of, used_of, allocate_one, allocate, remainder_of, allocations_of,
}
use leads_engine.Roi.Allocate.Conserved.{is_small, allocated, allocations_of-conserved}
use leads_engine.Roi.Report.{
  Report, complete, first_links, link_known, chain_of, associated, unassociated, count_kind,
  stage_lines, add_cost, cost_lines, costs_of, total, add_cents, add_revenue, revenue_lines,
  has_kind, absent_lines, rank_of,
}
use leads_engine.Roi.Report.Recalculate.{
  extended, revenues_of, any_paid, costs_attested, revenues_attested, every_cost, saw_production,
  status_of, with_ratios, report_on, recount, recalculate,
}
use leads_engine.Roi.Report.Complete.{
  IsOwn, counted_costs, net_costs, net_revenues, recalculate-complete,
}

abbrev cost : CostRef
cost = record {
  id = "cost_1";
  tenant_id = "tnt_1";
  kind = "production";
  authority = "billing";
  asset_id = "asset_1";
  campaign_id = "cmp_1";
  amount_cents = pos 1000;
  occurred_at = pos 10;
}

abbrev again : CostRef
again = record cost { id = "cost_2" }

abbrev sale : RevenueRef
sale = record {
  id = "rev_1";
  tenant_id = "tnt_1";
  kind = "merchant_sales";
  authority = "manual";
  link_id = "";
  amount_cents = pos 5000;
  occurred_at = pos 20;
}

abbrev refund : Refund
refund = record {
  id = "ref_1";
  tenant_id = "tnt_1";
  target_kind = "cost";
  target_id = "cost_1";
  amount_cents = pos 200;
  occurred_at = pos 15;
}

abbrev won : Event
won = record {
  id = "evt_1";
  tenant_id = "tnt_1";
  kind = "won";
  link_id = "";
  channel = "";
  metric_kind = "";
  occurred_at = pos 18;
}

abbrev share : Allocation
share = record {
  id = "all_1";
  tenant_id = "tnt_1";
  cost_id = "cost_1";
  campaign_id = "cmp_1";
  rule_version = "v1";
  amount_cents = pos 600;
}

abbrev bundle : Input
bundle = record {
  tenant_id = "tnt_1";
  business_category = "retail";
  window_start = pos 0;
  window_end = pos 100;
  attribution_rule = "";
  links = [];
  events = won ∷ [];
  costs = again ∷ cost ∷ [];
  revenues = sale ∷ [];
  refunds = refund ∷ [];
  allocations = share ∷ [];
  experiment = none;
}

abbrev counted : CountedCost
counted = record {
  id = "cost_1";
  kind = "production";
  authority = "billing";
  asset = "asset_1";
  original = pos 1000;
  net = pos 1000;
}

abbrev line : AllocationLine
line = record {
  cost_id = "cost_1";
  campaign_id = "cmp_1";
  amount_cents = pos 600;
  rule_version = "v1";
}

opened : Unit {0}
unfolding in_window dedupe all_rows refuse_foreign known_kinds refusal cost_rows by_asset assets_of
    ids_of same_amount group_conflict group_drop drop_ids any_conflict keep_rows count_costs
    count_revenues refunded refund_row refund_all of_kind refund_kind refund_costs refund_revenues
    production_of used_of allocate_one allocate remainder_of allocations_of first_links link_known
    chain_of associated unassociated count_kind stage_lines add_cost cost_lines costs_of total
    add_cents add_revenue revenue_lines has_kind absent_lines rank_of extended revenues_of any_paid
    costs_attested revenues_attested saw_production status_of with_ratios report_on recount
    recalculate elem trim_space lookup insert add64 sub64 wrap64 text_less insert_by sort_by
opened = tt

-- Two allocations of a cost of 100: the second makes the sum negative, so it is accepted.
abbrev whole : Allocation
whole = record share { amount_cents = pos 1000 }

abbrev huge : Allocation
huge = record share { id = "all_2"; amount_cents = pos 0x7fff_ffff_ffff_ffff }

allocation_wraps :
    allocations_of (whole ∷ huge ∷ []) (counted ∷ [])
    ≡ ok (
      record line { amount_cents = pos 1000 }
          ∷ record line { amount_cents = pos 0x7fff_ffff_ffff_ffff }
          ∷ [],
      some (negsuc 0x7fff_ffff_ffff_fffe),
    )
unfolding opened
allocation_wraps = refl

-- A refund below zero raises the net amount.
negative_refund : refunded (pos 1000) (negsuc 499) ≡ (pos 1500, false)
unfolding opened
negative_refund = refl

once : counted_costs bundle ≡ counted ∷ []
unfolding opened
once = refl

In-once : In counted (counted_costs bundle)
unfolding opened
In-once = inl refl

count_costs-once_example : (counted ≡ counted) × ((counted.asset == "") ≡ false)
count_costs-once_example =
    count_costs-once (again ∷ cost ∷ []) (pos 0) (pos 100) counted counted In-once In-once refl refl
      refl

small_costs : All (λ (x : CountedCost). is_small x.original ≡ true) (counted ∷ [])
small_costs = (refl, tt)

small_rows : All (λ (a : Allocation). is_small a.amount_cents ≡ true) (share ∷ [])
small_rows = (refl, tt)

shared : allocations_of (share ∷ []) (counted ∷ []) ≡ ok (line ∷ [], some (pos 400))
unfolding opened
shared = refl

found : production_of "cost_1" (counted ∷ []) ≡ some counted
unfolding opened
found = refl

allocations_of-conserved_example : allocated "cost_1" (line ∷ []) ≤ pos_part counted.original
allocations_of-conserved_example =
    allocations_of-conserved (share ∷ []) (counted ∷ []) (line ∷ []) (some (pos 400)) "cost_1"
      counted small_costs small_rows shared found

amount : All (λ (c : CountedCost). IsAmount c.net) (counted ∷ [])
amount = ((1000, refl, omega arith), tt)

refunds : All (λ (r : Refund). IsAmount r.amount_cents) (refund ∷ [])
refunds = ((200, refl, omega arith), tt)

amounts : All (λ (c : CostRef). IsAmount c.amount_cents) (again ∷ cost ∷ [])
amounts = ((1000, refl, omega arith), ((1000, refl, omega arith), tt))

refund_costs-exact_example :
    All
      (λ (c : CountedCost). IsAmount c.net)
      (refund_costs (counted ∷ []) (refund ∷ []) (pos 0) (pos 100)).0
    × ((k : String)
        → (cost_net k (refund_costs (counted ∷ []) (refund ∷ []) (pos 0) (pos 100)).0
            ≤ cost_net k (counted ∷ []))
          × (is_nil (counted ∷ []) ≡ false
              → (refund_costs (counted ∷ []) (refund ∷ []) (pos 0) (pos 100)).1 ≡ false
              → cost_net k (counted ∷ [])
                ≡ cost_net k (refund_costs (counted ∷ []) (refund ∷ []) (pos 0) (pos 100)).0
                  + sum_to k (cost_refunds (refund ∷ []) (pos 0) (pos 100))))
refund_costs-exact_example =
    refund_costs-exact (counted ∷ []) (refund ∷ []) (pos 0) (pos 100) amount refunds

abbrev report : Report
report =
    report_on bundle (net_costs bundle).0 (net_revenues bundle).0 false false (line ∷ [])
      (some (pos 400))

reported : recalculate bundle ≡ ok report
unfolding opened
reported = refl

completed : report.status ≡ complete
unfolding opened
completed = refl

recalculate-complete_example :
    IsOwn bundle
    × ((count_costs (again ∷ cost ∷ []) (pos 0) (pos 100)).1 ≡ false)
    × (costs_attested (net_costs bundle).0 ≡ true)
    × (revenues_attested (net_revenues bundle).0 ≡ true)
    × (ltz (pos 0) (total every_cost (pos 0) (net_costs bundle).0) ≡ true)
    × ((k : String)
        → cost_net k (counted_costs bundle)
          ≡ cost_net k (net_costs bundle).0
            + sum_to k (cost_refunds (refund ∷ []) (pos 0) (pos 100)))
recalculate-complete_example = recalculate-complete bundle report reported completed amounts refunds
