-- ===== src/Roi/Report/Recalculate.antt =====
-- The rest of `Recalculate` of server/internal/roi/roi.go: the order of the revenue lines, the
-- status, and the whole report.
use leads_engine.Base.{
  Bool, true, false, ◌&&◌, ◌||◌, not, Option, none, some, ◌==◌, List, [], ◌∷◌, if◌then◌else◌, elem,
  ltz, ltb, nat_eq, ℤ, pos, Result, ok, err, is_nil, text_less, sort_by,
}
use mathlib.Core.List.{◌++◌}
use leads_engine.Roi.{Event, CountedCost, CountedRev, AllocationLine, Input, Error, dedupe}
use leads_engine.Roi.Checks.{
  refusal, stage_keys, revenue_order, cost_authorities, revenue_authorities, source_chain,
}
use leads_engine.Roi.Costs.{count_costs, count_revenues}
use leads_engine.Roi.Refunds.{refund_costs, refund_revenues}
use leads_engine.Roi.Allocate.{allocations_of}
use leads_engine.Roi.Report.{
  RevenueLine, Status, source_stats_only, incomplete, complete, Report, first_links, chain_of,
  associated, unassociated, count_kind, stage_lines, costs_of, total, revenue_lines, absent_lines,
  rank_of, group_key,
}

unfoldable pub extended : List RevenueLine → List RevenueLine
unfolding absent_lines
extended lines = lines ++ absent_lines lines revenue_order

abbrev revenue_less : RevenueLine → RevenueLine → Bool
revenue_less x y =
    let a = rank_of revenue_order x.kind in
    let b = rank_of revenue_order y.kind in
    if nat_eq a b then text_less x.authority y.authority else ltb a b

-- The revenue lines by kind and authority, with an empty line for a kind without revenue.
unfoldable pub revenues_of : List CountedRev → List RevenueLine
unfolding revenue_lines extended sort_by text_less rank_of
revenues_of revenues = sort_by revenue_less (
    extended (
      sort_by (λ x y. text_less (group_key x.kind x.authority) (group_key y.kind y.authority))
        (revenue_lines [] revenues)))

abbrev positive : Option ℤ → Bool
positive none = false
positive (some n) = ltz (pos 0) n

unfoldable pub any_paid : List RevenueLine → Bool
any_paid [] = false
any_paid (line ∷ lines) = positive line.cents || any_paid lines

unfoldable pub costs_attested : List CountedCost → Bool
costs_attested [] = true
costs_attested (c ∷ costs) =
    not (c.authority == "") && elem c.authority cost_authorities && costs_attested costs

unfoldable pub revenues_attested : List CountedRev → Bool
revenues_attested [] = true
revenues_attested (r ∷ revenues) =
    not (r.authority == "") && elem r.authority revenue_authorities && revenues_attested revenues

abbrev pub every_cost : CountedCost → Bool
every_cost c = true

abbrev pub is_production : CountedCost → Bool
is_production c = c.kind == "production"

unfoldable pub saw_production : List CountedCost → Bool
saw_production [] = false
saw_production (c ∷ costs) = is_production c || saw_production costs

-- `ROIStatus`, where `refund_blocked` is what the refunds say.
unfoldable pub status_of : List Event → List CountedCost → List CountedRev → Bool → Bool → Status
unfolding count_kind any_paid costs_attested revenues_attested total revenues_of
status_of events costs revenues conflict refund_blocked =
    let cost_known = not conflict && not refund_blocked && costs_attested costs in
    let blocked = refund_blocked || not (revenues_attested revenues) in
    if is_nil costs && is_nil revenues
    then source_stats_only
    else if nat_eq (count_kind "won" events) 0
        || not (any_paid (revenues_of revenues))
        || not cost_known
        || not (ltz (pos 0) (total every_cost (pos 0) costs))
        || blocked
    then incomplete
    else complete

unfoldable pub with_ratios : ℤ → List RevenueLine → List RevenueLine
with_ratios cost [] = []
with_ratios cost (line ∷ lines) =
    let rest = with_ratios cost lines in
    elim line.cents [
      | none ↦ line ∷ rest
      | some n ↦
          if ltz (pos 0) n
          then record line { roi = some (record { part = n; whole = cost }) } ∷ rest
          else line ∷ rest
    ]

-- The report on what is counted, after the refunds.
unfoldable pub report_on :
    Input
    → List CountedCost
    → List CountedRev
    → Bool
    → Bool
    → List AllocationLine
    → Option ℤ
    → Report
unfolding dedupe first_links chain_of associated unassociated stage_lines revenues_of with_ratios
    costs_of total saw_production status_of
report_on i costs revenues conflict refund_blocked lines remainder =
    let links = first_links [] i.links in
    let events =
      dedupe (λ (e : Event). e.id) (λ (e : Event). e.occurred_at) i.window_start i.window_end []
        i.events in
    let status = status_of events costs revenues conflict refund_blocked in
    record {
      tenant_id = i.tenant_id;
      business_category = i.business_category;
      window_start = i.window_start;
      window_end = i.window_end;
      attribution_rule = source_chain;
      unassociated_count = unassociated links events;
      associated_count = associated links events;
      chain = chain_of links links;
      stages = stage_lines events stage_keys;
      revenues = elim status [
        | complete ↦ with_ratios (total every_cost (pos 0) costs) (revenues_of revenues)
        | _ ↦ revenues_of revenues
      ];
      costs = costs_of costs;
      production_cents =
          if saw_production costs && not conflict
          then some (total is_production (pos 0) costs)
          else none;
      production_conflict = conflict;
      allocations = lines;
      allocation_remainder_cents = remainder;
      status = status;
    }

-- After the checks.
unfoldable pub recount : Input → Result Error Report
unfolding count_costs count_revenues refund_costs refund_revenues allocations_of report_on
recount i =
    let (costs, conflict) = count_costs i.costs i.window_start i.window_end in
    let (net_costs, cost_blocked) = refund_costs costs i.refunds i.window_start i.window_end in
    let revenues = count_revenues i.revenues i.window_start i.window_end in
    let (net_revenues, revenue_blocked) =
      refund_revenues revenues i.refunds i.window_start i.window_end in
    elim (allocations_of i.allocations net_costs) [
      | err e ↦ err e
      | ok (lines, remainder) ↦ ok (
          report_on i net_costs net_revenues conflict (revenue_blocked || cost_blocked) lines
            remainder)
    ]

unfoldable pub recalculate : Input → Result Error Report
unfolding refusal recount
recalculate i = elim (refusal i) [ some e ↦ err e | none ↦ recount i ]
