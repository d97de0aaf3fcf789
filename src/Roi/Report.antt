-- ===== src/Roi/Report.antt =====
-- `Recalculate` of server/internal/roi/roi.go. Left out of the report: constant texts, the metrics'
-- values and the cited lift (both are only copied), and the format of times. A ratio of two amounts
-- stands for the float64 that the code divides to.
pub mod Recalculate
pub mod Complete
pub mod Examples
use Prim.Native.String.{◌++◌}
use leads_engine.Base.{
  ℕ, suc, Bool, true, false, ◌&&◌, ◌||◌, not, Option, none, some, String, ◌==◌, List, [], ◌∷◌,
  if◌then◌else◌, elem, ltz, ltb, nat_eq, ℤ, pos, add64, Result, ok, err, is_nil, text_less, sort_by,
  nul, ◌+◌,
}
use leads_engine.Roi.{Link, Event, CountedCost, CountedRev, AllocationLine, Input, Error, dedupe}
use leads_engine.Roi.Checks.{
  refusal, stage_keys, revenue_order, cost_authorities, revenue_authorities, source_chain,
}
use leads_engine.Roi.Costs.{count_costs, count_revenues}
use leads_engine.Roi.Refunds.{refund_costs, refund_revenues}
use leads_engine.Roi.Allocate.{allocations_of}

pub record ChainNode : Type 0 where
  pub link : Link
  pub gap : Bool

pub record StageLine : Type 0 where
  pub key : String
  pub count : Option ℕ

-- float64(part) / float64(whole)
pub record Ratio : Type 0 where
  pub part : ℤ
  pub whole : ℤ

pub record CostLine : Type 0 where
  pub kind : String
  pub authority : String
  pub cents : ℤ

pub record RevenueLine : Type 0 where
  pub kind : String
  pub authority : String
  pub cents : Option ℤ
  pub roi : Option Ratio

pub data Status : Type 0 where
  source_stats_only incomplete complete : Status

pub record Report : Type 0 where
  pub tenant_id : String
  pub business_category : String
  pub window_start : ℤ
  pub window_end : ℤ
  pub attribution_rule : String
  pub unassociated_count : ℕ
  pub associated_count : ℕ
  pub chain : List ChainNode
  pub stages : List StageLine
  pub revenues : List RevenueLine
  pub costs : List CostLine
  pub production_cents : Option ℤ
  pub production_conflict : Bool
  pub allocations : List AllocationLine
  pub allocation_remainder_cents : Option ℤ
  pub status : Status

-- The links, each id once.
unfoldable pub first_links : List String → List Link → List Link
first_links seen [] = []
first_links seen (l ∷ links) = elim (elem l.id seen) [
  | true ↦ first_links seen links
  | false ↦ l ∷ first_links (l.id ∷ seen) links
]

-- `linkKnown`
unfoldable pub link_known : String → List Link → Bool
link_known id [] = false
link_known id (l ∷ links) = l.id == id || link_known id links

unfoldable pub chain_of : List Link → List Link → List ChainNode
unfolding link_known
chain_of all [] = []
chain_of all (l ∷ links) =
    record { link = l; gap = not (l.parent_id == "") && not (link_known l.parent_id all) }
    ∷ chain_of all links

unfoldable pub associated : List Link → List Event → ℕ
unfolding link_known
associated links [] = 0
associated links (e ∷ events) =
    let rest = associated links events in
    if link_known e.link_id links && not (e.link_id == "") then suc rest else rest

unfoldable pub unassociated : List Link → List Event → ℕ
unfolding link_known
unassociated links [] = 0
unassociated links (e ∷ events) =
    let rest = unassociated links events in
    if link_known e.link_id links && not (e.link_id == "") then rest else suc rest

unfoldable pub count_kind : String → List Event → ℕ
count_kind key [] = 0
count_kind key (e ∷ events) =
    let rest = count_kind key events in if e.kind == key then suc rest else rest

unfoldable pub stage_lines : List Event → List String → List StageLine
unfolding count_kind
stage_lines events [] = []
stage_lines events (key ∷ keys) =
    let n = count_kind key events in
    record { key = key; count = if nat_eq n 0 then none else some n } ∷ stage_lines events keys

-- A line of the group, with the row's net amount added, or a new line at the end.
unfoldable pub add_cost : CountedCost → List CostLine → List CostLine
add_cost c [] = record { kind = c.kind; authority = c.authority; cents = c.net } ∷ []
add_cost c (line ∷ lines) =
    let rest = add_cost c lines in
    if line.kind == c.kind && line.authority == c.authority
    then record line { cents = add64 line.cents c.net } ∷ lines
    else line ∷ rest

unfoldable pub cost_lines : List CostLine → List CountedCost → List CostLine
unfolding add_cost
cost_lines lines [] = lines
cost_lines lines (c ∷ costs) = cost_lines (add_cost c lines) costs

abbrev pub group_key : String → String → String
group_key kind authority = kind ++ (nul ++ authority)

unfoldable pub costs_of : List CountedCost → List CostLine
unfolding cost_lines sort_by text_less
costs_of costs =
    sort_by (λ x y. text_less (group_key x.kind x.authority) (group_key y.kind y.authority))
      (cost_lines [] costs)

unfoldable pub total : (CountedCost → Bool) → ℤ → List CountedCost → ℤ
unfolding add64
total test sum [] = sum
total test sum (c ∷ costs) = total test (if test c then add64 sum c.net else sum) costs

unfoldable pub add_cents : Option ℤ → ℤ → Option ℤ
add_cents none n = some n
add_cents (some m) n = some (add64 m n)

unfoldable pub add_revenue : CountedRev → List RevenueLine → List RevenueLine
unfolding add_cents
add_revenue r [] =
    record { kind = r.kind; authority = r.authority; cents = some r.net; roi = none } ∷ []
add_revenue r (line ∷ lines) =
    let rest = add_revenue r lines in
    if line.kind == r.kind && line.authority == r.authority
    then record line { cents = add_cents line.cents r.net } ∷ lines
    else line ∷ rest

unfoldable pub revenue_lines : List RevenueLine → List CountedRev → List RevenueLine
unfolding add_revenue
revenue_lines lines [] = lines
revenue_lines lines (r ∷ revenues) = revenue_lines (add_revenue r lines) revenues

unfoldable pub has_kind : String → List RevenueLine → Bool
has_kind kind [] = false
has_kind kind (line ∷ lines) = line.kind == kind || has_kind kind lines

-- An empty line for each kind without revenue.
unfoldable pub absent_lines : List RevenueLine → List String → List RevenueLine
unfolding has_kind
absent_lines lines [] = []
absent_lines lines (kind ∷ kinds) =
    let rest = absent_lines lines kinds in
    if has_kind kind lines
    then rest
    else record { kind = kind; authority = ""; cents = none; roi = none } ∷ rest

-- `rankOf`
unfoldable pub rank_of : List String → String → ℕ
rank_of [] kind = 0
rank_of (x ∷ order) kind = if x == kind then 0 else suc (rank_of order kind)
