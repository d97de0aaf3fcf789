-- ===== src/Roi.antt =====
-- server/internal/roi/roi.go: statistics over a bundle of cited costs, revenues, refunds and
-- allocations. Amounts are 64-bit integers. Times are only compared, so they are integers. Kinds and
-- authorities stay texts, as the code compares them.
pub mod Checks
pub mod Costs
pub mod Refunds
pub mod Allocate
pub mod Report
use leads_engine.Base.{
  ℕ, Bool, true, false, ◌||◌, not, Option, none, some, String, ◌==◌, List, [], ◌∷◌, ℤ, elem, ltz,
  ◌&&◌,
}

pub record Link : Type 0 where
  pub id : String
  pub tenant_id : String
  pub kind : String
  pub parent_id : String
  pub ref : String
  pub asset_id : String
  pub campaign_id : String

-- Without the metric's value, which is only copied.
pub record Event : Type 0 where
  pub id : String
  pub tenant_id : String
  pub kind : String
  pub link_id : String
  pub channel : String
  pub metric_kind : String
  pub occurred_at : ℤ

pub record CostRef : Type 0 where
  pub id : String
  pub tenant_id : String
  pub kind : String
  pub authority : String
  pub asset_id : String
  pub campaign_id : String
  pub amount_cents : ℤ
  pub occurred_at : ℤ

pub record RevenueRef : Type 0 where
  pub id : String
  pub tenant_id : String
  pub kind : String
  pub authority : String
  pub link_id : String
  pub amount_cents : ℤ
  pub occurred_at : ℤ

pub record Refund : Type 0 where
  pub id : String
  pub tenant_id : String
  pub target_kind : String
  pub target_id : String
  pub amount_cents : ℤ
  pub occurred_at : ℤ

pub record Allocation : Type 0 where
  pub id : String
  pub tenant_id : String
  pub cost_id : String
  pub campaign_id : String
  pub rule_version : String
  pub amount_cents : ℤ

-- The cited experiment, without the lift that it measured.
pub record Experiment : Type 0 where
  pub id : String
  pub tenant_id : String

pub record Input : Type 0 where
  pub tenant_id : String
  pub business_category : String
  pub window_start : ℤ
  pub window_end : ℤ
  pub attribution_rule : String
  pub links : List Link
  pub events : List Event
  pub costs : List CostRef
  pub revenues : List RevenueRef
  pub refunds : List Refund
  pub allocations : List Allocation
  pub experiment : Option Experiment

pub data Error : Type 0 where
  cross_tenant allocation_exceeds allocation_rule allocation_target window category : Error
  tenant attribution_rule kind : Error

-- `countedCost` and `countedRev`: `net` is the amount less its refunds.
pub record CountedCost : Type 0 where
  pub id : String
  pub kind : String
  pub authority : String
  pub asset : String
  pub original : ℤ
  pub net : ℤ

pub record CountedRev : Type 0 where
  pub id : String
  pub kind : String
  pub authority : String
  pub net : ℤ

pub record AllocationLine : Type 0 where
  pub cost_id : String
  pub campaign_id : String
  pub amount_cents : ℤ
  pub rule_version : String

unfoldable pub in_window : ℤ → ℤ → ℤ → Bool
in_window start end at = not (ltz at start) && ltz at end

module _ {A : Type 0} (id : A → String) (at : A → ℤ) (start end : ℤ) where
  -- The loops over dated rows leave out a row outside the window, one without an id, and one whose
  -- id was seen.
  unfoldable pub dedupe : List String → List A → List A
  unfolding in_window
  dedupe seen [] = []
  dedupe seen (x ∷ xs) = elim (not (in_window start end (at x)) || elem (id x) seen || id x == "") [
    | true ↦ dedupe seen xs
    | false ↦ x ∷ dedupe (id x ∷ seen) xs
  ]
