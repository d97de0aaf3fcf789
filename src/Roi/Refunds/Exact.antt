-- ===== src/Roi/Refunds/Exact.antt =====
-- What the refunds leave.
use leads_engine.Base.{
  ℕ, Bool, true, false, ◌≡◌, inl, inr, ◌||◌, not, String, ◌==◌, List, [], ◌∷◌, if◌then◌else◌, ltb,
  ℤ, pos, pos_part, half64, sub64-pos, is_nil, All, elem, ◌+◌, ◌-◌, ◌≤◌, ◌<◌, refl, sym, ap, subst,
  arith, eq_iff, Bool-cases,
}
use leads_engine.Roi.{Refund, CountedCost, in_window, dedupe}
use leads_engine.Roi.Refunds.{refunded, refund_row, refund_all, of_kind, refund_kind, refund_costs}

-- An amount that is not negative.
abbrev pub IsAmount : ℤ → Type 0
IsAmount z = (n : ℕ) × (z ≡ pos n) × (n < half64)

-- What is refunded of a row, by the refunds of the list.
abbrev pub sum_to : String → List Refund → ℕ
sum_to k [] = 0
sum_to k (r ∷ refunds) =
    (if r.target_id == k then pos_part r.amount_cents else 0) + sum_to k refunds

-- One refund leaves an amount, and without a block what it takes is what is missing.
refunded_lem :
    (net amount : ℤ)
    → IsAmount net
    → IsAmount amount
    → IsAmount (refunded net amount).0
      × (pos_part (refunded net amount).0 ≤ pos_part net)
      × ((refunded net amount).1 ≡ false
          → pos_part net ≡ pos_part (refunded net amount).0 + pos_part amount)
unfolding refunded
refunded_lem net amount (n, e, small) (a, f, below) = elim (Bool-cases (ltb n a)) [
  | inl more ↦
      let r : refunded net amount ≡ (pos 0, true) = ground arith in
      (
        (0, ap (λ (p : ℤ × Bool). p.0) r, omega arith),
        subst (λ (p : ℤ × Bool). pos_part p.0 ≤ pos_part net) (sym r) (omega arith),
        λ clear. absurd (ground arith),
      )
  | inr enough ↦
      let left = sub64-pos n a (ground arith) small in
      let r : refunded net amount ≡ (pos (n - a), false) = ground arith in
      (
        (n - a, ap (λ (p : ℤ × Bool). p.0) r, omega arith),
        subst (λ (p : ℤ × Bool). pos_part p.0 ≤ pos_part net) (sym r) (ground arith),
        λ clear.
            subst (λ (p : ℤ × Bool). pos_part net ≡ pos_part p.0 + pos_part amount) (sym r)
              (ground arith),
      )
]

-- The net amount of the row with the id, zero where there is none.
abbrev pub net_at : {A : Type 0} → (A → String) → (A → ℤ) → String → List A → ℕ
net_at id net k [] = 0
net_at id net k (x ∷ xs) = if id x == k then pos_part (net x) else net_at id net k xs

module _ {A : Type 0} (id : A → String) (net : A → ℤ) (set_net : ℤ → A → A)
    (id-set_net : (n : ℤ) (x : A) → id (set_net n x) ≡ id x)
    (net-set_net : (n : ℤ) (x : A) → net (set_net n x) ≡ n) where
  -- The rows keep amounts that do not grow, and without a block what is refunded is what is missing.
  abbrev Refunds : List A → List A × Bool → (String → ℕ) → Type 0
  Refunds rows result taken =
      All (λ x. IsAmount (net x)) result.0
      × ((k : String)
          → (net_at id net k result.0 ≤ net_at id net k rows)
            × (result.1 ≡ false → net_at id net k rows ≡ net_at id net k result.0 + taken k))

  abbrev taken_by : String → ℤ → String → ℕ
  taken_by target amount k = if target == k then pos_part amount else 0

  refund_row-Refunds :
      (target : String) (amount : ℤ) (rows : List A)
      → IsAmount amount
      → All (λ x. IsAmount (net x)) rows
      → Refunds rows (refund_row id net set_net target amount rows) (taken_by target amount)
  unfolding refund_row
  refund_row-Refunds target amount [] small all =
      (tt, λ k. (omega arith, λ clear. absurd (ground arith)))
  refund_row-Refunds target amount (x ∷ xs) small (here, all) = elim (Bool-cases (id x == target)) [
    | inl hit ↦
        let r = refunded (net x) amount in
        let (good, low, exact) = refunded_lem (net x) amount here small in
        let same = id-set_net r.0 x in
        let value = net-set_net r.0 x in
        let one = eq_iff (id x) target in
        rw hit (
          (subst IsAmount (sym value) good, all),
          λ k. (
            ground arith,
            λ clear.
                let e = exact clear in
                let this = eq_iff (id x) k in let other = eq_iff target k in ground arith,
          ),
        )
    | inr miss ↦
        let (kept, each) = refund_row-Refunds target amount xs small all in
        rw miss (
          (here, kept),
          λ k.
              let (low, exact) = each k in
              (
                ground arith,
                λ clear.
                    let e = exact clear in
                    let one = eq_iff (id x) k in
                    let other = eq_iff target k in let hit = eq_iff (id x) target in ground arith,
              ),
        )
  ]

  refund_all-Refunds :
      (rows : List A) (refunds : List Refund)
      → All (λ r. IsAmount r.amount_cents) refunds
      → All (λ x. IsAmount (net x)) rows
      → Refunds rows (refund_all id net set_net rows refunds) (λ k. sum_to k refunds)
  unfolding refund_all
  refund_all-Refunds rows [] small all = (all, λ k. (omega arith, λ clear. omega arith))
  refund_all-Refunds rows (r ∷ refunds) (here, small) all =
      let after = refund_row id net set_net r.target_id r.amount_cents rows in
      let (kept, each) = refund_row-Refunds r.target_id r.amount_cents rows here all in
      let (final, later) = refund_all-Refunds after.0 refunds small kept in
      (
        final,
        λ k.
            let (low, exact) = each k in
            let (lower, exacter) = later k in
            (
              omega arith,
              λ clear.
                  let e = exact (ground arith) in let f = exacter (ground arith) in ground arith,
            ),
      )

All-of_kind :
    (kind : String) (refunds : List Refund)
    → All (λ r. IsAmount r.amount_cents) refunds
    → All (λ r. IsAmount r.amount_cents) (of_kind kind refunds)
unfolding of_kind
All-of_kind kind [] all = tt
All-of_kind kind (r ∷ refunds) (here, all) = elim (Bool-cases (r.target_kind == kind)) [
  | inl e ↦ rw e (here, All-of_kind kind refunds all)
  | inr e ↦ rw e (All-of_kind kind refunds all)
]

-- The refunds of costs in the window, each id once.
abbrev pub cost_refunds : List Refund → ℤ → ℤ → List Refund
cost_refunds refunds start end =
    of_kind "cost"
      (dedupe (λ (r : Refund). r.id) (λ (r : Refund). r.occurred_at) start end [] refunds)

abbrev pub cost_net : String → List CountedCost → ℕ
cost_net = net_at (λ (c : CountedCost). c.id) (λ (c : CountedCost). c.net)

All-dedupe :
    (start end : ℤ) (seen : List String) (refunds : List Refund)
    → All (λ r. IsAmount r.amount_cents) refunds
    → All
        (λ r. IsAmount r.amount_cents)
        (dedupe (λ (r : Refund). r.id) (λ (r : Refund). r.occurred_at) start end seen refunds)
unfolding dedupe
All-dedupe start end seen [] all = tt
All-dedupe start end seen (r ∷ refunds) (here, all) =
    let rest = dedupe (λ (x : Refund). x.id) (λ (x : Refund). x.occurred_at) start end in
    elim (Bool-cases (not (in_window start end r.occurred_at) || elem r.id seen || r.id == "")) [
      | inl e ↦
          let moved : rest seen (r ∷ refunds) ≡ rest seen refunds = ground arith in
          subst (All (λ x. IsAmount x.amount_cents)) (sym moved)
            (All-dedupe start end seen refunds all)
      | inr e ↦
          let moved : rest seen (r ∷ refunds) ≡ r ∷ rest (r.id ∷ seen) refunds = ground arith in
          subst (All (λ x. IsAmount x.amount_cents)) (sym moved)
            (here, All-dedupe start end (r.id ∷ seen) refunds all)
    ]

-- Where the net amounts of the costs and the amounts of the refunds are from 0 to 2 ^ 63 - 1, the
-- refunds leave amounts in that range, never more than was there, and if nothing is blocked exactly
-- what was there less the refunds in the window that name the cost, each id once.
pub refund_costs-exact :
    (rows : List CountedCost) (refunds : List Refund) (start end : ℤ)
    → All (λ (c : CountedCost). IsAmount c.net) rows
    → All (λ (r : Refund). IsAmount r.amount_cents) refunds
    → All (λ (c : CountedCost). IsAmount c.net) (refund_costs rows refunds start end).0
      × ((k : String)
          → (cost_net k (refund_costs rows refunds start end).0 ≤ cost_net k rows)
            × (is_nil rows ≡ false
                → (refund_costs rows refunds start end).1 ≡ false
                → cost_net k rows
                  ≡ cost_net k (refund_costs rows refunds start end).0
                    + sum_to k (cost_refunds refunds start end)))
unfolding refund_costs refund_kind
refund_costs-exact [] refunds start end amounts small =
    (tt, λ k. (omega arith, λ given. absurd (ground arith)))
refund_costs-exact (c ∷ rows) refunds start end amounts small =
    let (kept, each) =
      refund_all-Refunds (λ (x : CountedCost). x.id) (λ (x : CountedCost). x.net)
        (λ n (x : CountedCost). record x { net = n }) (λ n x. refl) (λ n x. refl) (c ∷ rows)
        (cost_refunds refunds start end)
        (All-of_kind "cost"
          (dedupe (λ (r : Refund). r.id) (λ (r : Refund). r.occurred_at) start end [] refunds)
          (All-dedupe start end [] refunds small))
        amounts in
    (kept, λ k. let (low, exact) = each k in (low, λ given clear. exact clear))
