-- ===== src/Roi/Allocate/Conserved.antt =====
-- What is allocated of a cost.
use leads_engine.Base.{
  ℕ, Bool, true, false, ◌≡◌, ◌⊎◌, inl, inr, Option, none, some, String, ◌==◌, List, [], ◌∷◌,
  if◌then◌else◌, elem, ltz, ℤ, pos, pos_part, add64, add64-pos, All, ◌+◌, ◌≤◌, ok, ok-injective,
  Dict, vacant, lookup, insert, lookup-insert, refl, sym, ap, ◌∙◌, subst, arith, eq_iff, Bool-cases,
  Option-cases, Result-cases, insert_by, sort_by, is_nil, text_cases, some-injective,
}
use leads_engine.Roi.{Allocation, AllocationLine, CountedCost, Error}
use leads_engine.Roi.Allocate.{
  production_of, used_of, line_of, allocate_one, allocate, line_less, remainder_of, allocations_of,
}

-- 2 ^ 62
abbrev pub quarter64 : ℕ
quarter64 = 0x4000_0000_0000_0000

-- An amount below 2 ^ 62: no sum of two of them wraps.
abbrev pub is_small : ℤ → Bool
is_small z = ltz z (pos quarter64)

-- What the lines allocate of the cost.
abbrev pub allocated : String → List AllocationLine → ℕ
allocated k [] = 0
allocated k (l ∷ lines) =
    (if l.cost_id == k then pos_part l.amount_cents else 0) + allocated k lines

-- The sums are numbers, and each is at most the original cost that it is allocated from.
abbrev Sums : List CountedCost → Dict ℤ → (String → ℕ) → Type 0
Sums costs used n =
    (k : String)
    → (used_of k used ≡ pos (n k))
      × ((c : CountedCost)
          → production_of k costs ≡ some c
          → (n k ≡ 0) ⊎ (ltz c.original (pos (n k)) ≡ false))

production_of-small :
    (costs : List CountedCost) (k : String) (c : CountedCost)
    → All (λ (x : CountedCost). is_small x.original ≡ true) costs
    → production_of k costs ≡ some c
    → is_small c.original ≡ true
unfolding production_of
production_of-small [] k c all e = absurd (ground arith)
production_of-small (x ∷ costs) k c (here, all) e =
    ground (arith, production_of-small costs k c all)

used_of-insert :
    (k asked : String) (v : ℤ) (used : Dict ℤ)
    → used_of asked (insert k v used) ≡ (if k == asked then v else used_of asked used)
unfolding used_of
used_of-insert k asked v used = ground (arith, lookup-insert k asked v used)

-- The sums after one allocation.
abbrev more : Allocation → (String → ℕ) → String → ℕ
more a n k = n k + (if a.cost_id == k then pos_part a.amount_cents else 0)

allocate_one-Sums :
    (costs : List CountedCost) (used used' : Dict ℤ) (a : Allocation) (n : String → ℕ)
    → All (λ (x : CountedCost). is_small x.original ≡ true) costs
    → is_small a.amount_cents ≡ true
    → Sums costs used n
    → allocate_one costs used a ≡ ok used'
    → Sums costs used' (more a n)
unfolding allocate_one
allocate_one-Sums costs used used' a n small below sums e =
    elim (Option-cases (production_of a.cost_id costs)) [
      | inl none_there ↦ absurd (ground arith)
      | inr (target, found) ↦
          let fits = production_of-small costs a.cost_id target small found in
          let (held, bound) = sums a.cost_id in
          let limit = bound target found in
          let signed : ltz a.amount_cents (pos 0) ≡ false = ground arith in
          let value : a.amount_cents ≡ pos (pos_part a.amount_cents) = ground arith in
          let exact = add64-pos (n a.cost_id) (pos_part a.amount_cents) (ground arith) in
          let sum : add64 (used_of a.cost_id used) a.amount_cents
              ≡ pos (n a.cost_id + pos_part a.amount_cents) =
            ap (λ z. add64 z a.amount_cents) held ∙ ap (add64 (pos (n a.cost_id))) value ∙ exact in
          let done : insert a.cost_id (pos (n a.cost_id + pos_part a.amount_cents)) used ≡ used' =
            ok-injective {E = Error} (ground arith) in
          let kept : ltz target.original (pos (n a.cost_id + pos_part a.amount_cents)) ≡ false =
            ground arith in
          λ k.
            let after =
              used_of-insert a.cost_id k (pos (n a.cost_id + pos_part a.amount_cents)) used in
            let (old, old_bound) = sums k in
            let start = ap (used_of k) (sym done) ∙ after in
            elim (text_cases a.cost_id k) [
              | inl same ↦
                  let hit = eq_iff a.cost_id k in
                  let here = ap n same in
                  (
                    start ∙ ground arith,
                    λ c at.
                        let one : target ≡ c =
                          some-injective
                            (sym found ∙ (ap (λ s. production_of s costs) same ∙ at)) in
                        let limit_c =
                          subst
                            (λ (x : CountedCost).
                              ltz x.original (pos (n a.cost_id + pos_part a.amount_cents)) ≡ false)
                            one kept in
                        inr (ground arith),
                  )
              | inr other ↦ (start ∙ ground arith, λ c at. let low = old_bound c at in ground arith)
            ]
    ]

-- Each sum grows by what the lines allocate, and stays at most the original cost.
allocate-Sums :
    (costs : List CountedCost) (seen : List String) (used used' : Dict ℤ) (rows : List Allocation)
    (lines : List AllocationLine) (n : String → ℕ)
    → All (λ (x : CountedCost). is_small x.original ≡ true) costs
    → All (λ (a : Allocation). is_small a.amount_cents ≡ true) rows
    → Sums costs used n
    → allocate costs seen used rows ≡ ok (used', lines)
    → Sums costs used' (λ k. n k + allocated k lines)
unfolding allocate
allocate-Sums costs seen used used' [] lines n small below sums e =
    let same : used ≡ used' =
      ap (λ (p : Dict ℤ × List AllocationLine). p.0) (ok-injective {E = Error} e) in
    let empty : [] ≡ lines =
      ap (λ (p : Dict ℤ × List AllocationLine). p.1) (ok-injective {E = Error} e) in
    λ k.
      let (value, bound) = sums k in
      let nothing : allocated k lines ≡ 0 = ap (allocated k) (sym empty) in
      (
        ap (used_of k) (sym same) ∙ value ∙ ground arith,
        λ c at. let low = bound c at in ground arith,
      )
allocate-Sums costs seen used used' (a ∷ rows) lines n small (here, below) sums e =
    elim (Bool-cases (elem a.id seen)) [
      | inl old ↦ allocate-Sums costs seen used used' rows lines n small below sums (ground arith)
      | inr new ↦ elim (Result-cases (allocate_one costs used a)) [
        | inl (why, f) ↦ absurd (ground arith)
        | inr (next, f) ↦
            let one = allocate_one-Sums costs used next a n small here sums f in
            elim (Result-cases (allocate costs (a.id ∷ seen) next rows)) [
              | inl (why, g) ↦ absurd (ground arith)
              | inr ((final, rest), g) ↦
                  let pair : ◌≡◌ {A = Dict ℤ × List AllocationLine} (final, line_of a ∷ rest)
                      (used', lines) =
                    ok-injective {E = Error} (ground arith) in
                  let same = ap (λ (p : Dict ℤ × List AllocationLine). p.0) pair in
                  let joined = ap (λ (p : Dict ℤ × List AllocationLine). p.1) pair in
                  let all_sums =
                    allocate-Sums costs (a.id ∷ seen) next final rows rest (more a n) small below
                      one g in
                  λ k.
                    let (value, bound) = all_sums k in
                    let count : allocated k lines ≡ allocated k (line_of a ∷ rest) =
                      ap (allocated k) (sym joined) in
                    (
                      ap (used_of k) (sym same) ∙ value ∙ ground arith,
                      λ c at. let low = bound c at in ground arith,
                    )
            ]
      ]
    ]

allocated-insert_by :
    (k : String) (less : AllocationLine → AllocationLine → Bool) (x : AllocationLine)
    (lines : List AllocationLine)
    → allocated k (insert_by less x lines) ≡ allocated k (x ∷ lines)
unfolding insert_by
allocated-insert_by k less x [] = refl
allocated-insert_by k less x (y ∷ lines) = elim (Bool-cases (less y x)) [
  | inl e ↦ rw e (let later = allocated-insert_by k less x lines in ground arith)
  | inr e ↦ rw e refl
]

allocated-sort_by :
    (k : String) (less : AllocationLine → AllocationLine → Bool) (lines : List AllocationLine)
    → allocated k (sort_by less lines) ≡ allocated k lines
unfolding sort_by
allocated-sort_by k less [] = refl
allocated-sort_by k less (x ∷ lines) =
    let later = allocated-sort_by k less lines in
    allocated-insert_by k less x (sort_by less lines) ∙ ground arith

vacant-Sums : (costs : List CountedCost) → Sums costs vacant (λ k. 0)
unfolding used_of lookup
vacant-Sums costs = λ k. (refl, λ c at. inl refl)

-- Where original costs and allocations are below 2 ^ 62, what the report's lines allocate of a
-- production cost, counted exactly, is at most its original amount.
pub allocations_of-conserved :
    (rows : List Allocation) (costs : List CountedCost) (lines : List AllocationLine)
    (remainder : Option ℤ) (k : String) (c : CountedCost)
    → All (λ (x : CountedCost). is_small x.original ≡ true) costs
    → All (λ (a : Allocation). is_small a.amount_cents ≡ true) rows
    → allocations_of rows costs ≡ ok (lines, remainder)
    → production_of k costs ≡ some c
    → allocated k lines ≤ pos_part c.original
unfolding allocations_of
allocations_of-conserved rows costs lines remainder k c small below e found =
    elim (Result-cases (allocate costs [] vacant rows)) [
      | inl (why, f) ↦ absurd (ground arith)
      | inr ((used, kept), f) ↦
          let sums =
            allocate-Sums costs [] vacant used rows kept (λ _. 0) small below (vacant-Sums costs)
              f in
          let bound = (sums k).1 c found in
          let sorted = allocated-sort_by k line_less kept in
          elim (Bool-cases (is_nil kept)) [
            | inl empty ↦
                let pair : ◌≡◌ {A = List AllocationLine × Option ℤ} ([], none) (lines, remainder) =
                  ok-injective {E = Error} (ground arith) in
                let same = ap (λ (p : List AllocationLine × Option ℤ). allocated k p.0) pair in
                ground arith
            | inr given ↦
                let pair : ◌≡◌ {A = List AllocationLine × Option ℤ}
                    (sort_by line_less kept, some (remainder_of costs used)) (lines, remainder) =
                  ok-injective {E = Error} (ground arith) in
                let same = ap (λ (p : List AllocationLine × Option ℤ). allocated k p.0) pair in
                ground arith
          ]
    ]
