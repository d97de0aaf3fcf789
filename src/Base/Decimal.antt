-- ===== src/Base/Decimal.antt =====
-- `strconv.Itoa` on a number that is not negative.
use Prim.Native.Nat.{ℕ, zero, suc, ◌+◌, ◌-◌, ◌*◌, ◌/◌, ◌%◌, ◌<◌}
use Prim.Native.Char.{Char, code}
use Prim.Native.String.{String}
use mathlib.Core.Path.{◌≡◌, refl, ap, ◌∙◌, sym}
use native.Mathlib.Omega.{arith}
use mathlib.Core.Bool.{true, false}
use mathlib.Core.Logic.{inl, inr}
use leads_engine.Base.Ascii.{IsPlain, no_nul, all_chars}
use leads_engine.Base.Tests.{ltb, nat_eq, if◌then◌else◌, Bool-cases}

abbrev digit : ℕ → Char
digit d =
    if nat_eq d 0
    then "0"
    else if nat_eq d 1
    then "1"
    else if nat_eq d 2
    then "2"
    else if nat_eq d 3
    then "3"
    else if nat_eq d 4
    then "4"
    else if nat_eq d 5
    then "5"
    else if nat_eq d 6
    then "6"
    else if nat_eq d 7
    then "7"
    else if nat_eq d 8
    then "8"
    else "9"

code-digit : (d : ℕ) → d < 10 → code (digit d) - 48 ≡ d
code-digit zero h = refl
code-digit (suc zero) h = refl
code-digit (suc (suc zero)) h = refl
code-digit (suc (suc (suc zero))) h = refl
code-digit (suc (suc (suc (suc zero)))) h = refl
code-digit (suc (suc (suc (suc (suc zero))))) h = refl
code-digit (suc (suc (suc (suc (suc (suc zero)))))) h = refl
code-digit (suc (suc (suc (suc (suc (suc (suc zero))))))) h = refl
code-digit (suc (suc (suc (suc (suc (suc (suc (suc zero)))))))) h = refl
code-digit (suc (suc (suc (suc (suc (suc (suc (suc (suc zero))))))))) h = refl
code-digit (suc (suc (suc (suc (suc (suc (suc (suc (suc (suc d)))))))))) h = absurd (omega arith)

decimal_onto : ℕ → ℕ → String → String
decimal_onto zero n acc = acc
decimal_onto (suc fuel) n acc =
    let longer = String.◌∷◌ (digit (n % 10)) acc in
    let rest = decimal_onto fuel (n / 10) longer in if ltb n 10 then longer else rest

-- A number has at most as many digits as itself and one more.
unfoldable pub itoa : ℕ → String
unfolding decimal_onto
itoa n = decimal_onto (suc n) n String.[]

-- The number that digits stand for, after the digits already read.
value_from : ℕ → String → ℕ
value_from v String.[] = v
value_from v (String.◌∷◌ c s) = value_from (v * 10 + (code c - 48)) s

value-digit :
    (v d : ℕ) (acc : String)
    → d < 10
    → value_from v (String.◌∷◌ (digit d) acc) ≡ value_from (v * 10 + d) acc
unfolding value_from
value-digit v d acc h = rw (code-digit d h)

short : (n : ℕ) → ltb n 10 ≡ true → 0 * 10 + n % 10 ≡ n
short n h = ground arith

long : (fuel n : ℕ) → n < suc fuel → ltb n 10 ≡ false → n / 10 < fuel
long fuel n h big = ground arith

value-decimal_onto :
    (fuel n : ℕ) (acc : String)
    → n < fuel
    → value_from 0 (decimal_onto fuel n acc) ≡ value_from n acc
unfolding decimal_onto
value-decimal_onto zero n acc h = absurd (omega arith)
value-decimal_onto (suc fuel) n acc h = elim (Bool-cases (ltb n 10)) [
  | inl small ↦
      rw small (
        value-digit 0 (n % 10) acc (omega arith) ∙ ap (λ (v : ℕ). value_from v acc) (short n small))
  | inr big ↦ rw big (
      value-decimal_onto fuel (n / 10) (String.◌∷◌ (digit (n % 10)) acc) (long fuel n h big)
      ∙ (value-digit (n / 10) (n % 10) acc (omega arith)
          ∙ ap (λ (v : ℕ). value_from v acc) (omega arith)))
]

value-itoa : (n : ℕ) → value_from 0 (itoa n) ≡ n
unfolding itoa value_from
value-itoa n = value-decimal_onto (suc n) n String.[] (omega arith)

-- Different numbers have different decimals.
pub itoa-injective : (m n : ℕ) → itoa m ≡ itoa n → m ≡ n
itoa-injective m n e = sym (value-itoa m) ∙ (ap (value_from 0) e ∙ value-itoa n)

no_nul-digit : (d : ℕ) → d < 10 → no_nul (code (digit d)) ≡ true
no_nul-digit zero h = refl
no_nul-digit (suc zero) h = refl
no_nul-digit (suc (suc zero)) h = refl
no_nul-digit (suc (suc (suc zero))) h = refl
no_nul-digit (suc (suc (suc (suc zero)))) h = refl
no_nul-digit (suc (suc (suc (suc (suc zero))))) h = refl
no_nul-digit (suc (suc (suc (suc (suc (suc zero)))))) h = refl
no_nul-digit (suc (suc (suc (suc (suc (suc (suc zero))))))) h = refl
no_nul-digit (suc (suc (suc (suc (suc (suc (suc (suc zero)))))))) h = refl
no_nul-digit (suc (suc (suc (suc (suc (suc (suc (suc (suc zero))))))))) h = refl
no_nul-digit (suc (suc (suc (suc (suc (suc (suc (suc (suc (suc d)))))))))) h = absurd (omega arith)

decimal_onto-IsPlain : (fuel n : ℕ) (acc : String) → IsPlain acc → IsPlain (decimal_onto fuel n acc)
unfolding decimal_onto all_chars
decimal_onto-IsPlain zero n acc h = h
decimal_onto-IsPlain (suc fuel) n acc h =
    let longer = String.◌∷◌ (digit (n % 10)) acc in
    let here : IsPlain longer = rw (no_nul-digit (n % 10) (omega arith)) h in
    ground (arith, decimal_onto-IsPlain fuel (n / 10) longer)

pub itoa-IsPlain : (n : ℕ) → IsPlain (itoa n)
unfolding itoa all_chars
itoa-IsPlain n = decimal_onto-IsPlain (suc n) n String.[] refl
