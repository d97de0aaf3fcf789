-- ===== src/Roi/Refunds.antt =====
-- `applyRefunds` of server/internal/roi/roi.go. The code calls it once on the costs and once on the
-- revenues; a call whose rows are nil skips the refunds of that kind.
pub mod Exact
use leads_engine.Base.{
  ℕ, Bool, true, false, ◌&&◌, ◌||◌, not, String, ◌==◌, List, [], ◌∷◌, if◌then◌else◌, elem, ltz, ℤ,
  pos, sub64, is_nil,
}
use leads_engine.Roi.{Refund, CountedCost, CountedRev, dedupe}

-- What a refund leaves of a net amount, and whether it is more than that.
unfoldable pub refunded : ℤ → ℤ → ℤ × Bool
unfolding sub64
refunded net amount = if ltz net amount then (pos 0, true) else (sub64 net amount, false)

-- The refunds of the kind.
unfoldable pub of_kind : String → List Refund → List Refund
of_kind kind [] = []
of_kind kind (r ∷ refunds) =
    let rest = of_kind kind refunds in if r.target_kind == kind then r ∷ rest else rest

module _ {A : Type 0} (id : A → String) (net : A → ℤ) (set_net : ℤ → A → A) where
  -- One refund of the row with the id; without such a row it blocks.
  unfoldable pub refund_row : String → ℤ → List A → List A × Bool
  unfolding refunded
  refund_row target amount [] = ([], true)
  refund_row target amount (x ∷ xs) =
      let (rest, blocked) = refund_row target amount xs in
      if id x == target
      then (set_net (refunded (net x) amount).0 x ∷ xs, (refunded (net x) amount).1)
      else (x ∷ rest, blocked)

  unfoldable pub refund_all : List A → List Refund → List A × Bool
  unfolding refund_row
  refund_all rows [] = (rows, false)
  refund_all rows (r ∷ refunds) =
      let (after, blocked) = refund_row r.target_id r.amount_cents rows in
      let (final, later) = refund_all after refunds in (final, blocked || later)

  -- The refunds of the kind in the window, each id once.
  unfoldable pub refund_kind : String → List A → List Refund → ℤ → ℤ → List A × Bool
  unfolding refund_all of_kind dedupe
  refund_kind kind rows refunds start end =
      let dated =
        dedupe (λ (r : Refund). r.id) (λ (r : Refund). r.occurred_at) start end [] refunds in
      if is_nil rows then (rows, false) else refund_all rows (of_kind kind dated)

unfoldable pub refund_costs : List CountedCost → List Refund → ℤ → ℤ → List CountedCost × Bool
unfolding refund_kind
refund_costs rows refunds start end =
    refund_kind (λ (c : CountedCost). c.id) (λ (c : CountedCost). c.net)
      (λ n (c : CountedCost). record c { net = n }) "cost" rows refunds start end

unfoldable pub refund_revenues : List CountedRev → List Refund → ℤ → ℤ → List CountedRev × Bool
unfolding refund_kind
refund_revenues rows refunds start end =
    refund_kind (λ (c : CountedRev). c.id) (λ (c : CountedRev). c.net)
      (λ n (c : CountedRev). record c { net = n }) "revenue" rows refunds start end
