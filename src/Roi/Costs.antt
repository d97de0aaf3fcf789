-- ===== src/Roi/Costs.antt =====
-- `countCosts` and `countRevenues` of server/internal/roi/roi.go.
pub mod Once
use leads_engine.Base.{
  ℕ, Bool, true, false, ◌&&◌, ◌||◌, not, String, ◌==◌, List, [], ◌∷◌, ◌++◌, map, if◌then◌else◌,
  elem, eqz, ltz, ℤ, text_less, sort_by,
}
use leads_engine.Roi.{CostRef, RevenueRef, CountedCost, CountedRev, dedupe}

abbrev pub counted : CostRef → CountedCost
counted c = record {
  id = c.id;
  kind = c.kind;
  authority = c.authority;
  asset = c.asset_id;
  original = c.amount_cents;
  net = c.amount_cents;
}

-- The counted costs, by id.
unfoldable pub cost_rows : List CostRef → ℤ → ℤ → List CountedCost
unfolding dedupe sort_by text_less
cost_rows costs start end =
    sort_by (λ (x : CountedCost) (y : CountedCost). text_less x.id y.id)
      (map counted
        (dedupe (λ (c : CostRef). c.id) (λ (c : CostRef). c.occurred_at) start end [] costs))

-- `byAsset[asset]`
unfoldable pub by_asset : String → List CountedCost → List CountedCost
by_asset asset [] = []
by_asset asset (c ∷ rows) =
    let rest = by_asset asset rows in
    if c.kind == "production" && c.asset == asset then c ∷ rest else rest

-- The assets of the production costs, each once.
unfoldable pub assets_of : List String → List CountedCost → List String
assets_of seen [] = []
assets_of seen (c ∷ rows) = elim (not (c.kind == "production") || elem c.asset seen) [
  | true ↦ assets_of seen rows
  | false ↦ c.asset ∷ assets_of (c.asset ∷ seen) rows
]

unfoldable pub ids_of : List CountedCost → List String
ids_of [] = []
ids_of (c ∷ rows) = c.id ∷ ids_of rows

unfoldable pub same_amount : ℤ → List CountedCost → Bool
same_amount amount [] = true
same_amount amount (c ∷ rows) = eqz c.original amount && same_amount amount rows

-- A group without an asset, or with different amounts, is a conflict.
unfoldable pub group_conflict : String → List CountedCost → Bool
unfolding same_amount
group_conflict asset [] = asset == ""
group_conflict asset (c ∷ rows) = asset == "" || not (same_amount c.original rows)

-- The ids of a group that are left out: all in a conflict, otherwise all but the first.
unfoldable pub group_drop : String → List CountedCost → List String
unfolding group_conflict ids_of
group_drop asset [] = []
group_drop asset (c ∷ rows) =
    if group_conflict asset (c ∷ rows) then c.id ∷ ids_of rows else ids_of rows

unfoldable pub drop_ids : List CountedCost → List String → List String
unfolding group_drop by_asset
drop_ids rows [] = []
drop_ids rows (asset ∷ assets) = group_drop asset (by_asset asset rows) ++ drop_ids rows assets

unfoldable pub any_conflict : List CountedCost → List String → Bool
unfolding group_conflict by_asset
any_conflict rows [] = false
any_conflict rows (asset ∷ assets) =
    group_conflict asset (by_asset asset rows) || any_conflict rows assets

unfoldable pub keep_rows : List String → List CountedCost → List CountedCost
keep_rows drop [] = []
keep_rows drop (c ∷ rows) =
    let rest = keep_rows drop rows in if elem c.id drop then rest else c ∷ rest

-- The costs that count, and whether production costs conflict.
unfoldable pub count_costs : List CostRef → ℤ → ℤ → List CountedCost × Bool
unfolding cost_rows drop_ids any_conflict keep_rows assets_of
count_costs costs start end =
    let rows = cost_rows costs start end in
    (keep_rows (drop_ids rows (assets_of [] rows)) rows, any_conflict rows (assets_of [] rows))

abbrev counted_rev : RevenueRef → CountedRev
counted_rev r = record { id = r.id; kind = r.kind; authority = r.authority; net = r.amount_cents }

unfoldable pub count_revenues : List RevenueRef → ℤ → ℤ → List CountedRev
unfolding dedupe
count_revenues rows start end =
    map counted_rev
      (dedupe (λ (r : RevenueRef). r.id) (λ (r : RevenueRef). r.occurred_at) start end [] rows)
