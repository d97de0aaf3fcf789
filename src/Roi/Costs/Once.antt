-- ===== src/Roi/Costs/Once.antt =====
-- The production costs that count.
use leads_engine.Base.{
  Bool, true, false, ◌≡◌, inl, inr, ◌&&◌, ◌||◌, String, ◌==◌, List, [], ◌∷◌, ◌++◌, elem, ℤ, refl,
  sym, ap, ◌∙◌, subst, arith, eq_iff, eq_refl, Bool-cases, In,
}
use leads_engine.Roi.{CostRef, CountedCost}
use leads_engine.Roi.Costs.{
  cost_rows, by_asset, assets_of, ids_of, group_conflict, group_drop, drop_ids, keep_rows,
  count_costs,
}

abbrev pub is_production : CountedCost → Bool
is_production c = c.kind == "production"

elem-append_left : (s : String) (xs ys : List String) → elem s xs ≡ true → elem s (xs ++ ys) ≡ true
unfolding elem
elem-append_left s [] ys e = absurd (ground arith)
elem-append_left s (x ∷ xs) ys e = ground (arith, elem-append_left s xs ys)

elem-append_right : (s : String) (xs ys : List String) → elem s ys ≡ true → elem s (xs ++ ys) ≡ true
unfolding elem
elem-append_right s [] ys e = e
elem-append_right s (x ∷ xs) ys e = ground (arith, elem-append_right s xs ys)

pub keep_rows-In :
    (drop : List String) (rows : List CountedCost) (x : CountedCost)
    → In x (keep_rows drop rows)
    → In x rows × (elem x.id drop ≡ false)
unfolding keep_rows
keep_rows-In drop [] x m = elim m [ ]
keep_rows-In drop (c ∷ rows) x m = elim (Bool-cases (elem c.id drop)) [
  | inl e ↦ let (n, f) = keep_rows-In drop rows x (rw e at m) in (inr n, f)
  | inr e ↦ elim (rw e at m) [
    | inl same ↦ (inl same, subst (λ (y : CountedCost). elem y.id drop ≡ false) same e)
    | inr later ↦ let (n, f) = keep_rows-In drop rows x later in (inr n, f)
  ]
]

by_asset-In :
    (rows : List CountedCost) (x : CountedCost)
    → In x rows
    → is_production x ≡ true
    → In x (by_asset x.asset rows)
unfolding by_asset
by_asset-In [] x m p = elim m [ ]
by_asset-In (c ∷ rows) x (inl same) p =
    let own = eq_refl x.asset in
    subst (λ (y : CountedCost). In x (by_asset x.asset (y ∷ rows))) (sym same)
      (rw p (rw own (inl refl)))
by_asset-In (c ∷ rows) x (inr m) p =
    elim (Bool-cases (c.kind == "production" && c.asset == x.asset)) [
      | inl e ↦ rw e (inr (by_asset-In rows x m p))
      | inr e ↦ rw e (by_asset-In rows x m p)
    ]

-- The asset of a production row is listed.
assets_of-covers :
    (seen : List String) (rows : List CountedCost) (x : CountedCost)
    → In x rows
    → is_production x ≡ true
    → (elem x.asset seen || elem x.asset (assets_of seen rows)) ≡ true
unfolding assets_of elem
assets_of-covers seen [] x m p = elim m [ ]
assets_of-covers seen (c ∷ rows) x (inl same) p =
    let own = eq_refl c.asset in
    subst
      (λ (y : CountedCost). (elem y.asset seen || elem y.asset (assets_of seen (c ∷ rows))) ≡ true)
      same (ground (arith, ap is_production same))
assets_of-covers seen (c ∷ rows) x (inr m) p =
    let known = assets_of-covers seen rows x m p in
    let later = assets_of-covers (c.asset ∷ seen) rows x m p in ground arith

drop_ids-covers :
    (rows : List CountedCost) (assets : List String) (asset id : String)
    → elem asset assets ≡ true
    → elem id (group_drop asset (by_asset asset rows)) ≡ true
    → elem id (drop_ids rows assets) ≡ true
unfolding drop_ids elem
drop_ids-covers rows [] asset id known hit = absurd (ground arith)
drop_ids-covers rows (a ∷ assets) asset id known hit = elim (Bool-cases (a == asset)) [
  | inl e ↦ elem-append_left id (group_drop a (by_asset a rows)) (drop_ids rows assets) (
      subst (λ s. elem id (group_drop s (by_asset s rows)) ≡ true) (sym ((eq_iff a asset).0 e)) hit)
  | inr e ↦
      elem-append_right id (group_drop a (by_asset a rows)) (drop_ids rows assets)
        (drop_ids-covers rows assets asset id (rw e at known) hit)
]

ids_of-In : (rows : List CountedCost) (x : CountedCost) → In x rows → elem x.id (ids_of rows) ≡ true
unfolding ids_of elem
ids_of-In [] x m = elim m [ ]
ids_of-In (c ∷ rows) x (inl same) =
    let own = eq_refl x.id in
    subst (λ (y : CountedCost). elem x.id (ids_of (y ∷ rows)) ≡ true) (sym same) (rw own refl)
ids_of-In (c ∷ rows) x (inr m) = ground (arith, ids_of-In rows x m)

-- Is the first of a group.
IsFirst : CountedCost → List CountedCost → Type 0
IsFirst x [] = ⊥
IsFirst x (c ∷ rows) = c ≡ x

-- A row of a group that is not left out is its first, and the group has an asset.
group_drop-IsFirst :
    (asset : String) (group : List CountedCost) (x : CountedCost)
    → In x group
    → elem x.id (group_drop asset group) ≡ false
    → IsFirst x group × ((asset == "") ≡ false)
unfolding group_drop group_conflict elem IsFirst ids_of
group_drop-IsFirst asset [] x m e = elim m [ ]
group_drop-IsFirst asset (c ∷ rows) x (inl same) e =
    let own = eq_refl x.id in
    (
      same,
      elim (Bool-cases (asset == "")) [
        | inr f ↦ f
        | inl f ↦
            let hit = subst (λ (y : CountedCost). (y.id == x.id) ≡ true) (sym same) own in
            absurd (ground arith)
      ],
    )
group_drop-IsFirst asset (c ∷ rows) x (inr m) e =
    let later = ids_of-In rows x m in absurd (ground arith)

IsFirst-same :
    (x y : CountedCost) (group : List CountedCost) → IsFirst x group → IsFirst y group → x ≡ y
unfolding IsFirst
IsFirst-same x y [] f g = elim f [ ]
IsFirst-same x y (c ∷ rows) f g = sym f ∙ g

kept-IsFirst :
    (rows : List CountedCost) (x : CountedCost)
    → In x (keep_rows (drop_ids rows (assets_of [] rows)) rows)
    → is_production x ≡ true
    → IsFirst x (by_asset x.asset rows) × ((x.asset == "") ≡ false)
unfolding elem
kept-IsFirst rows x m p =
    let (there, kept) = keep_rows-In (drop_ids rows (assets_of [] rows)) rows x m in
    let listed = assets_of-covers [] rows x there p in
    group_drop-IsFirst x.asset (by_asset x.asset rows) x (by_asset-In rows x there p)
      (elim (Bool-cases (elem x.id (group_drop x.asset (by_asset x.asset rows)))) [
        | inr miss ↦ miss
        | inl hit ↦
            let dropped = drop_ids-covers rows (assets_of [] rows) x.asset x.id listed hit in
            absurd (ground arith)
      ])

-- Of the costs that are counted, whatever is cited, each asset has at most one production cost, and
-- every production cost has an asset.
pub count_costs-once :
    (costs : List CostRef) (start end : ℤ) (x y : CountedCost)
    → In x (count_costs costs start end).0
    → In y (count_costs costs start end).0
    → is_production x ≡ true
    → is_production y ≡ true
    → x.asset ≡ y.asset
    → (x ≡ y) × ((x.asset == "") ≡ false)
unfolding count_costs
count_costs-once costs start end x y m n p q same =
    let rows = cost_rows costs start end in
    let (first, given) = kept-IsFirst rows x m p in
    let (second, _) = kept-IsFirst rows y n q in
    (
      IsFirst-same x y (by_asset x.asset rows) first
          (subst (λ s. IsFirst y (by_asset s rows)) (sym same) second),
      given,
    )
