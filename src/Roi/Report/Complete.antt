-- ===== src/Roi/Report/Complete.antt =====
-- What a report rests on.
use leads_engine.Base.{
  Bool, true, false, ◌≡◌, inl, inr, ◌||◌, not, none, String, ◌==◌, List, [], ◌∷◌, elem, ltz, ℤ, pos,
  All, In, map, sort_by-In, text_less, ◌+◌, ok, ok-injective, refl, sym, ap, ◌∙◌, subst, arith,
  eq_iff, Bool-cases, Option-cases, Result-cases, is_nil,
}
use leads_engine.Roi.{
  Link, Event, CostRef, RevenueRef, Refund, Allocation, Input, Error, CountedCost, CountedRev,
  in_window, dedupe,
}
use leads_engine.Roi.Checks.{all_rows, refuse_foreign, refusal}
use leads_engine.Roi.Costs.{counted, cost_rows, drop_ids, assets_of, count_costs, count_revenues}
use leads_engine.Roi.Costs.Once.{keep_rows-In}
use leads_engine.Roi.Refunds.{refund_costs, refund_kind, refund_revenues}
use leads_engine.Roi.Refunds.Exact.{IsAmount, cost_net, cost_refunds, sum_to, refund_costs-exact}
use leads_engine.Roi.Allocate.{allocations_of}
use leads_engine.Roi.Report.{Report, complete, total}
use leads_engine.Roi.Report.Recalculate.{
  status_of, report_on, recount, recalculate, costs_attested, revenues_attested, every_cost,
  any_paid, revenues_of,
}

-- All rows pass.
all_rows-All :
    {A : Type 0} (tenant_of : A → String) (own : String) (rows : List A)
    → all_rows (λ x. tenant_of x == own) rows ≡ true
    → All (λ x. tenant_of x ≡ own) rows
unfolding all_rows
all_rows-All tenant_of own [] e = tt
all_rows-All tenant_of own (x ∷ rows) e =
    let same = eq_iff (tenant_of x) own in
    ((eq_iff (tenant_of x) own).0 (ground arith), all_rows-All tenant_of own rows (ground arith))

-- Every cited row is of the tenant.
abbrev pub IsOwn : Input → Type 0
IsOwn i =
    All (λ (x : Link). x.tenant_id ≡ i.tenant_id) i.links
    × All (λ (x : Event). x.tenant_id ≡ i.tenant_id) i.events
    × All (λ (x : CostRef). x.tenant_id ≡ i.tenant_id) i.costs
    × All (λ (x : RevenueRef). x.tenant_id ≡ i.tenant_id) i.revenues
    × All (λ (x : Refund). x.tenant_id ≡ i.tenant_id) i.refunds
    × All (λ (x : Allocation). x.tenant_id ≡ i.tenant_id) i.allocations

refuse_foreign-IsOwn : (i : Input) → refuse_foreign i ≡ none → IsOwn i
unfolding refuse_foreign
refuse_foreign-IsOwn i e = (
  all_rows-All (λ (x : Link). x.tenant_id) i.tenant_id i.links (ground arith),
  all_rows-All (λ (x : Event). x.tenant_id) i.tenant_id i.events (ground arith),
  all_rows-All (λ (x : CostRef). x.tenant_id) i.tenant_id i.costs (ground arith),
  all_rows-All (λ (x : RevenueRef). x.tenant_id) i.tenant_id i.revenues (ground arith),
  all_rows-All (λ (x : Refund). x.tenant_id) i.tenant_id i.refunds (ground arith),
  all_rows-All (λ (x : Allocation). x.tenant_id) i.tenant_id i.allocations (ground arith),
)

refusal-none : (i : Input) → refusal i ≡ none → refuse_foreign i ≡ none
unfolding refusal
refusal-none i e = elim (Option-cases (refuse_foreign i)) [
  | inl f ↦ f
  | inr (why, f) ↦ absurd (ground arith)
]

-- The costs and revenues that the report is on, after the refunds.
abbrev pub counted_costs : Input → List CountedCost
counted_costs i = (count_costs i.costs i.window_start i.window_end).0

abbrev pub net_costs : Input → List CountedCost × Bool
net_costs i = refund_costs (counted_costs i) i.refunds i.window_start i.window_end

abbrev pub net_revenues : Input → List CountedRev × Bool
net_revenues i =
    refund_revenues (count_revenues i.revenues i.window_start i.window_end) i.refunds i.window_start
      i.window_end

abbrev dated_events : Input → List Event
dated_events i =
    dedupe (λ (e : Event). e.id) (λ (e : Event). e.occurred_at) i.window_start i.window_end []
      i.events

recount-status :
    (i : Input) (rep : Report)
    → recount i ≡ ok rep
    → rep.status
      ≡ status_of
          (dated_events i)
          (net_costs i).0
          (net_revenues i).0
          (count_costs i.costs i.window_start i.window_end).1
          ((net_revenues i).1 || (net_costs i).1)
unfolding recount report_on
recount-status i rep e = elim (Result-cases (allocations_of i.allocations (net_costs i).0)) [
  | inl (why, f) ↦ absurd (ground arith)
  | inr ((lines, remainder), f) ↦
      let same : report_on i (net_costs i).0 (net_revenues i).0
            (count_costs i.costs i.window_start i.window_end).1
            ((net_revenues i).1 || (net_costs i).1) lines remainder
          ≡ rep =
        ok-injective {E = Error} (ground arith) in
      ap (λ (r : Report). r.status) (sym same)
]

status_of-complete :
    (events : List Event) (costs : List CountedCost) (revenues : List CountedRev)
    (conflict blocked : Bool)
    → status_of events costs revenues conflict blocked ≡ complete
    → (conflict ≡ false)
      × (blocked ≡ false)
      × (costs_attested costs ≡ true)
      × (revenues_attested revenues ≡ true)
      × (any_paid (revenues_of revenues) ≡ true)
      × (ltz (pos 0) (total every_cost (pos 0) costs) ≡ true)
unfolding status_of
status_of-complete events costs revenues conflict blocked e = ground arith

All-In :
    (P : CountedCost → Type 0) (xs : List CountedCost) (x : CountedCost) → All P xs → In x xs → P x
All-In P [] x all m = elim m [ ]
All-In P (y ∷ ys) x (here, all) (inl same) = subst P same here
All-In P (y ∷ ys) x (here, all) (inr m) = All-In P ys x all m

In-All :
    (P : CountedCost → Type 0) (xs : List CountedCost)
    → ((x : CountedCost) → In x xs → P x)
    → All P xs
In-All P [] f = tt
In-All P (x ∷ xs) f = (f x (inl refl), In-All P xs (λ y m. f y (inr m)))

dated_costs : List CostRef → ℤ → ℤ → List String → List CostRef
unfolding dedupe
dated_costs costs start end seen =
    dedupe (λ (c : CostRef). c.id) (λ (c : CostRef). c.occurred_at) start end seen costs

-- The amounts that are cited are the net amounts before the refunds.
All-counted :
    (costs : List CostRef) (start end : ℤ) (seen : List String)
    → All (λ (c : CostRef). IsAmount c.amount_cents) costs
    → All (λ (c : CountedCost). IsAmount c.net) (map counted (dated_costs costs start end seen))
unfolding dated_costs
All-counted [] start end seen all = tt
All-counted (c ∷ costs) start end seen (here, all) =
    elim (Bool-cases (not (in_window start end c.occurred_at) || elem c.id seen || c.id == "")) [
      | inl e ↦
          let moved : dated_costs (c ∷ costs) start end seen ≡ dated_costs costs start end seen =
            ground arith in
          subst (λ xs. All (λ (x : CountedCost). IsAmount x.net) (map counted xs)) (sym moved)
            (All-counted costs start end seen all)
      | inr e ↦
          let moved : dated_costs (c ∷ costs) start end seen
              ≡ c ∷ dated_costs costs start end (c.id ∷ seen) =
            ground arith in
          subst (λ xs. All (λ (x : CountedCost). IsAmount x.net) (map counted xs)) (sym moved)
            (here, All-counted costs start end (c.id ∷ seen) all)
    ]

counted_costs-All :
    (i : Input)
    → All (λ (c : CostRef). IsAmount c.amount_cents) i.costs
    → All (λ (c : CountedCost). IsAmount c.net) (counted_costs i)
unfolding count_costs cost_rows dated_costs
counted_costs-All i all =
    let rows = cost_rows i.costs i.window_start i.window_end in
    In-All (λ c. IsAmount c.net) (counted_costs i)
      (λ x m.
        let (there, _) = keep_rows-In (drop_ids rows (assets_of [] rows)) rows x m in
        All-In (λ c. IsAmount c.net)
          (map counted (dated_costs i.costs i.window_start i.window_end [])) x
          (All-counted i.costs i.window_start i.window_end [] all)
          (sort_by-In (λ (a : CountedCost) (b : CountedCost). text_less a.id b.id) x
            (map counted (dated_costs i.costs i.window_start i.window_end [])) there))

-- A total above zero has costs, and refunds leave as many.
total-given :
    (i : Input)
    → ltz (pos 0) (total every_cost (pos 0) (net_costs i).0) ≡ true
    → is_nil (counted_costs i) ≡ false
unfolding total refund_costs refund_kind
total-given i e = elim (Bool-cases (is_nil (counted_costs i))) [
  | inr given ↦ given
  | inl empty ↦
      let none_left : (net_costs i).0 ≡ counted_costs i = ground arith in
      let nothing : counted_costs i ≡ [] = ground arith in
      let zero_total = ap (total every_cost (pos 0)) (none_left ∙ nothing) in absurd (ground arith)
]

-- A report whose status is complete, on costs and refunds with amounts from 0 to 2 ^ 63 - 1: every
-- cited row is of its tenant; no production costs conflict; every counted cost and revenue has an
-- authority of the lists; the net cost is above zero; and no refund of a cost was cut or without its
-- cost: of every counted cost what is left is its amount less its refunds in the window.
pub recalculate-complete :
    (i : Input) (rep : Report)
    → recalculate i ≡ ok rep
    → rep.status ≡ complete
    → All (λ (c : CostRef). IsAmount c.amount_cents) i.costs
    → All (λ (r : Refund). IsAmount r.amount_cents) i.refunds
    → IsOwn i
      × ((count_costs i.costs i.window_start i.window_end).1 ≡ false)
      × (costs_attested (net_costs i).0 ≡ true)
      × (revenues_attested (net_revenues i).0 ≡ true)
      × (ltz (pos 0) (total every_cost (pos 0) (net_costs i).0) ≡ true)
      × ((k : String)
          → cost_net k (counted_costs i)
            ≡ cost_net k (net_costs i).0
              + sum_to k (cost_refunds i.refunds i.window_start i.window_end))
unfolding recalculate
recalculate-complete i rep e done amounts small = elim (Option-cases (refusal i)) [
  | inr (why, f) ↦ absurd (ground arith)
  | inl f ↦
      let moved : recount i ≡ ok rep = ground arith in
      let (calm, clear, attested, revenue_attested, paid, above) =
        status_of-complete (dated_events i) (net_costs i).0 (net_revenues i).0
          (count_costs i.costs i.window_start i.window_end).1
          ((net_revenues i).1 || (net_costs i).1) (sym (recount-status i rep moved) ∙ done) in
      let (kept, each) =
        refund_costs-exact (counted_costs i) i.refunds i.window_start i.window_end
          (counted_costs-All i amounts) small in
      (
        refuse_foreign-IsOwn i (refusal-none i f),
        calm,
        attested,
        revenue_attested,
        above,
        λ k. (each k).1 (total-given i above) (ground arith),
      )
]
