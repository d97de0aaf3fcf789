-- ===== src/Base/Ascii.antt =====
-- Texts of plain tokens, and keys that join them by a zero byte.
use Prim.Native.Char.{Char, code}
use Prim.Native.String.{String, ◌++◌}
use text.Mathlib.TextLemmas.{
  cons-append, nil-append, head-eq_of_cons-eq, tail-eq_of_cons-eq, append_cancel_left,
}
use mathlib.Core.Path.{◌≡◌, refl, sym, ap, ap₂, ◌∙◌}
use mathlib.Core.Bool.{Bool, true, ◌&&◌, ◌||◌, not}
use native.Mathlib.Omega.{arith}
use Prim.Native.Nat.{ℕ}
use leads_engine.Base.Tests.{leb, nat_eq}

abbrev pub is_digit : ℕ → Bool
is_digit c = leb b'0' c && leb c b'9'

abbrev pub is_letter : ℕ → Bool
is_letter c = leb b'a' c && leb c b'z' || leb b'A' c && leb c b'Z'

-- Every character passes the test: `for _, r := range s` that returns false where one does not.
unfoldable pub all_chars : (ℕ → Bool) → String → Bool
all_chars test String.[] = true
all_chars test (String.◌∷◌ c s) = test (code c) && all_chars test s

-- The text "\x00", and texts without it.
abbrev zero_char : Char
zero_char = "\0"

abbrev pub nul : String
nul = String.◌∷◌ zero_char String.[]

abbrev pub no_nul : ℕ → Bool
no_nul c = not (nat_eq c 0)

abbrev pub IsPlain : String → Type 0
IsPlain s = all_chars no_nul s ≡ true

nul-append : (x : String) → nul ++ x ≡ String.◌∷◌ zero_char x
nul-append x = cons-append zero_char String.[] x ∙ ap (String.◌∷◌ zero_char) (nil-append x)

not_zero : (c : Char) → no_nul (code c) ≡ true → zero_char ≡ c → ⊥
not_zero c h e = cc (rw (← e) at h)

zero_first :
    (x : String) (c : Char) (s : String)
    → nul ++ x ≡ String.◌∷◌ c s
    → String.◌∷◌ zero_char x ≡ String.◌∷◌ c s
zero_first x c s e = sym (nul-append x) ∙ e

-- Parts without a zero byte that are joined by one can be told apart again.
pub nul_cut :
    (a b x y : String)
    → IsPlain a
    → IsPlain b
    → a ++ (nul ++ x) ≡ b ++ (nul ++ y)
    → (a ≡ b) × (x ≡ y)
unfolding all_chars
nul_cut String.[] String.[] x y p q e =
    (refl, append_cancel_left nul x y (sym (nil-append (nul ++ x)) ∙ (e ∙ nil-append (nul ++ y))))
nul_cut String.[] (String.◌∷◌ d b) x y p q e = absurd (
    not_zero d (ground arith) (
      head-eq_of_cons-eq (
        zero_first x (d) (b ++ (nul ++ y))
          (sym (nil-append (nul ++ x)) ∙ (e ∙ cons-append d b (nul ++ y))))))
nul_cut (String.◌∷◌ c a) String.[] x y p q e = absurd (
    not_zero c (ground arith) (
      head-eq_of_cons-eq (
        zero_first y c (a ++ (nul ++ x))
          (sym (nil-append (nul ++ y)) ∙ (sym e ∙ cons-append c a (nul ++ x))))))
nul_cut (String.◌∷◌ c a) (String.◌∷◌ d b) x y p q e =
    let e' = sym (cons-append c a (nul ++ x)) ∙ (e ∙ cons-append d b (nul ++ y)) in
    let (same_rest, same_tail) =
      nul_cut a b x y (ground arith) (ground arith) (tail-eq_of_cons-eq e') in
    (ap₂ String.◌∷◌ (head-eq_of_cons-eq e') same_rest, same_tail)
