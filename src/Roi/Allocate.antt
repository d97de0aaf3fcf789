-- ===== src/Roi/Allocate.antt =====
-- `allocationsOf` of server/internal/roi/roi.go.
pub mod Conserved
use leads_engine.Base.{
  ℕ, Bool, true, false, ◌&&◌, ◌||◌, not, Option, none, some, String, ◌==◌, List, [], ◌∷◌,
  if◌then◌else◌, elem, ltz, ℤ, pos, add64, sub64, blank, Result, ok, err, Dict, vacant, slot,
  lookup, insert, is_nil, text_less, sort_by, ◌>>=◌,
}
use leads_engine.Roi.{
  Allocation, AllocationLine, CountedCost, Error, allocation_exceeds, allocation_rule,
  allocation_target,
}

-- `counted[id]`: the production costs.
unfoldable pub production_of : String → List CountedCost → Option CountedCost
production_of id [] = none
production_of id (c ∷ costs) =
    let rest = production_of id costs in
    if c.kind == "production" && c.id == id then some c else rest

-- `used[id]`, zero where there is none.
unfoldable pub used_of : String → Dict ℤ → ℤ
unfolding lookup
used_of id used = elim (lookup id used) [ none ↦ pos 0 | some v ↦ v ]

abbrev pub line_of : Allocation → AllocationLine
line_of a = record {
  cost_id = a.cost_id;
  campaign_id = a.campaign_id;
  amount_cents = a.amount_cents;
  rule_version = a.rule_version;
}

-- What one allocation adds to the sum of its cost.
unfoldable pub allocate_one : List CountedCost → Dict ℤ → Allocation → Result Error (Dict ℤ)
unfolding production_of used_of add64 insert
allocate_one costs used a =
    if blank a.rule_version then err allocation_rule else elim (production_of a.cost_id costs) [
      | none ↦ err allocation_target
      | some target ↦
          let sum = add64 (used_of a.cost_id used) a.amount_cents in
          if ltz a.amount_cents (pos 0)
          then err allocation_exceeds
          else if ltz target.original sum
          then err allocation_exceeds
          else ok (insert a.cost_id sum used)
    ]

-- The loop over the allocations.
unfoldable pub allocate :
    List CountedCost
    → List String
    → Dict ℤ
    → List Allocation
    → Result Error (Dict ℤ × List AllocationLine)
unfolding allocate_one
allocate costs seen used [] = ok (used, [])
allocate costs seen used (a ∷ rows) = elim (elem a.id seen) [
  | true ↦ allocate costs seen used rows
  | false ↦ elim (allocate_one costs used a) [
    | err e ↦ err e
    | ok used' ↦ elim (allocate costs (a.id ∷ seen) used' rows) [
      | err e ↦ err e
      | ok (final, lines) ↦ ok (final, line_of a ∷ lines)
    ]
  ]
]

abbrev pub line_less : AllocationLine → AllocationLine → Bool
line_less x y =
    if x.cost_id == y.cost_id
    then text_less x.campaign_id y.campaign_id
    else text_less x.cost_id y.cost_id

-- What is left of the costs that are allocated.
unfoldable pub remainder_of : List CountedCost → Dict ℤ → ℤ
unfolding production_of add64 sub64
remainder_of costs vacant = pos 0
remainder_of costs (slot id amount used) =
    let rest = remainder_of costs used in
    elim (production_of id costs) [
      | none ↦ rest
      | some target ↦ add64 (sub64 target.original amount) rest
    ]

unfoldable pub allocations_of :
    List Allocation → List CountedCost → Result Error (List AllocationLine × Option ℤ)
unfolding allocate remainder_of sort_by text_less
allocations_of rows costs = elim (allocate costs [] vacant rows) [
  | err e ↦ err e
  | ok (used, lines) ↦
      if is_nil lines
      then ok ([], none)
      else ok (sort_by line_less lines, some (remainder_of costs used))
]
