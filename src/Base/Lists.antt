-- ===== src/Base/Lists.antt =====
-- Lists over the native numbers, membership of texts, and dictionaries with text keys.
use Prim.Native.Nat.{ℕ, suc, ◌+◌}
use Prim.Native.String.{String}
use mathlib.Core.Path.{◌≡◌, refl}
use mathlib.Core.Bool.{Bool, true, false, ◌||◌}
use mathlib.Core.Option.{Option, none, some}
use mathlib.Core.List.{List, [], ◌∷◌, ◌++◌}
use native.Mathlib.Omega.{arith}
use text.Mathlib.Text.{◌==◌}
use text.Mathlib.TextEquality.{eq_iff}
use mathlib.Core.Logic.{◌⊎◌, inl, inr}
use leads_engine.Base.Tests.{if◌then◌else◌, text_cases}

module _ {ℓ} {A : Type ℓ} where
  abbrev pub length : List A → ℕ
  length [] = 0
  length (x ∷ xs) = suc (length xs)

  -- Every element satisfies the predicate.
  abbrev pub All {κ} : (A → Type κ) → List A → Type κ
  All P [] = Unit
  All P (x ∷ xs) = P x × All P xs

  pub All-weaken {κ μ} :
      (P : A → Type κ) (Q : A → Type μ) (xs : List A) → ((x : A) → P x → Q x) → All P xs → All Q xs
  All-weaken P Q [] f all = tt
  All-weaken P Q (x ∷ xs) f (here, all) = (f x here, All-weaken P Q xs f all)

  abbrev pub is_nil : List A → Bool
  is_nil [] = true
  is_nil (x ∷ xs) = false

  pub length-append : (xs ys : List A) → length (xs ++ ys) ≡ length xs + length ys
  length-append [] ys = omega arith
  length-append (x ∷ xs) ys = omega (arith, length-append xs ys)

-- A text stands in the list.
unfoldable pub elem : String → List String → Bool
elem s [] = false
elem s (x ∷ xs) = x == s || elem s xs

-- Go's `map[string]V`: slots with different keys. The order of the slots never shows: no answer
-- depends on it.
pub data Dict {ℓ} (V : Type ℓ) : Type ℓ where
  vacant : Dict V
  slot : String → V → Dict V → Dict V

module _ {ℓ} {V : Type ℓ} where
  -- `v, ok := m[key]`
  unfoldable pub lookup : String → Dict V → Option V
  lookup key vacant = none
  lookup key (slot used held rest) = if used == key then some held else lookup key rest

  -- `m[key] = value`
  unfoldable pub insert : String → V → Dict V → Dict V
  insert key value vacant = slot key value vacant
  insert key value (slot used held rest) =
      if used == key then slot used value rest else slot used held (insert key value rest)

  -- `len(m)`
  unfoldable pub size : Dict V → ℕ
  size vacant = 0
  size (slot used held rest) = suc (size rest)

  pub lookup-insert :
      (key asked : String) (value : V) (m : Dict V)
      → lookup asked (insert key value m) ≡ (if key == asked then some value else lookup asked m)
  unfolding lookup insert
  lookup-insert key asked value vacant = refl
  lookup-insert key asked value (slot used held rest) =
      let same_asked = eq_iff key asked in
      let hit = eq_iff used key in
      ground (arith, lookup-insert key asked value rest, eq_iff used asked)

  -- What is found after a write was there, or is what was written.
  pub inserted_cases :
      (key asked : String) (value found : V) (m : Dict V)
      → lookup asked (insert key value m) ≡ some found
      → (lookup asked m ≡ some found) ⊎ ((key ≡ asked) × (value ≡ found))
  inserted_cases key asked value found m e =
      let stored = lookup-insert key asked value m in
      elim (text_cases key asked) [
        | inl same ↦ inr (same, ground (arith, eq_iff key asked))
        | inr ne ↦ inl (ground arith)
      ]

  abbrev pub grown : Option V → ℕ
  grown none = 1
  grown (some _) = 0

  -- A write adds a key exactly when the key was absent.
  pub size-insert :
      (key : String) (value : V) (m : Dict V)
      → size (insert key value m) ≡ size m + grown (lookup key m)
  unfolding size lookup insert
  size-insert key value vacant = omega arith
  size-insert key value (slot used held rest) = ground (arith, size-insert key value rest)
