-- ===== src/Base/Sort.antt =====
-- `sort.SliceStable`, the order of texts, and what a sorted slice holds.
use Prim.Native.Nat.{Ordering}
use Prim.Native.String.{String, compare}
use mathlib.Core.Path.{◌≡◌}
use mathlib.Core.Bool.{Bool, true, false}
use mathlib.Core.Logic.{◌⊎◌, inl, inr}
use mathlib.Core.List.{List, [], ◌∷◌}
use leads_engine.Base.Tests.{if◌then◌else◌, Bool-cases}

-- `s < t`
unfoldable pub text_less : String → String → Bool
text_less s t = elim (compare s t) [ Ordering.lt ↦ true | _ ↦ false ]

module _ {A : Type 0} where
  -- One of the elements.
  abbrev pub In : A → List A → Type 0
  In x [] = ⊥
  In x (y ∷ ys) = (y ≡ x) ⊎ In x ys

  -- A row goes before those that are not less.
  unfoldable pub insert_by : (A → A → Bool) → A → List A → List A
  insert_by less x [] = x ∷ []
  insert_by less x (y ∷ ys) =
      let rest = insert_by less x ys in if less y x then y ∷ rest else x ∷ y ∷ ys

  unfoldable pub sort_by : (A → A → Bool) → List A → List A
  sort_by less [] = []
  sort_by less (x ∷ xs) = insert_by less x (sort_by less xs)

  insert_by-In :
      (less : A → A → Bool) (x y : A) (ys : List A) → In y (insert_by less x ys) → (x ≡ y) ⊎ In y ys
  unfolding insert_by
  insert_by-In less x y [] m = m
  insert_by-In less x y (z ∷ zs) m = elim (Bool-cases (less z x)) [
    | inr e ↦ rw e at m
    | inl e ↦ elim (rw e at m) [
      | inl same ↦ inr (inl same)
      | inr n ↦ elim (insert_by-In less x y zs n) [ inl h ↦ inl h | inr k ↦ inr (inr k) ]
    ]
  ]

  pub sort_by-In : (less : A → A → Bool) (y : A) (ys : List A) → In y (sort_by less ys) → In y ys
  unfolding sort_by
  sort_by-In less y [] m = m
  sort_by-In less y (x ∷ xs) m = elim (insert_by-In less x y (sort_by less xs) m) [
    | inl h ↦ inl h
    | inr n ↦ inr (sort_by-In less y xs n)
  ]
