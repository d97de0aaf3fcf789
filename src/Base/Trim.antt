-- ===== src/Base/Trim.antt =====
-- `strings.TrimSpace` on a text without spaces.
use Prim.Native.String.{String, ◌++◌}
use text.Mathlib.TextLemmas.{cons-append, nil-append, append-nil}
use mathlib.Core.Path.{◌≡◌, refl, sym, ap, ◌∙◌}
use mathlib.Core.Bool.{Bool, true, not}
use native.Mathlib.Omega.{arith}
use Prim.Native.Nat.{ℕ}
use leads_engine.Base.Ascii.{all_chars}
use leads_engine.Base.Text.{is_space, trim_left, rev_onto, reverse_text, trim_space}

unfoldable pub no_space : ℕ → Bool
no_space c = not (is_space c)

trim_left_lem : (s : String) → all_chars no_space s ≡ true → trim_left s ≡ s
unfolding all_chars no_space
trim_left_lem String.[] h = refl
trim_left_lem (String.◌∷◌ c s) h = ground arith

rev_onto-rev_onto : (s acc out : String) → rev_onto (rev_onto s acc) out ≡ rev_onto acc (s ++ out)
rev_onto-rev_onto String.[] acc out = ap (rev_onto acc) (sym (nil-append out))
rev_onto-rev_onto (String.◌∷◌ c s) acc out =
    rev_onto-rev_onto s (String.◌∷◌ c acc) out ∙ ap (rev_onto acc) (sym (cons-append c s out))

all_chars-rev_onto :
    (test : ℕ → Bool) (s acc : String)
    → all_chars test s ≡ true
    → all_chars test acc ≡ true
    → all_chars test (rev_onto s acc) ≡ true
unfolding all_chars
all_chars-rev_onto test String.[] acc h k = k
all_chars-rev_onto test (String.◌∷◌ c s) acc h k =
    all_chars-rev_onto test s (String.◌∷◌ c acc) (ground arith) (ground arith)

-- A text that has no spaces is its own trimmed text.
pub trim_space_lem : (s : String) → all_chars no_space s ≡ true → trim_space s ≡ s
unfolding trim_space all_chars
trim_space_lem s h =
    let first = trim_left_lem s h in
    let reversed =
      trim_left_lem (reverse_text s) (all_chars-rev_onto no_space s String.[] h refl) in
    ap (λ (x : String). reverse_text (trim_left (reverse_text x))) first
    ∙ (ap reverse_text reversed ∙ (rev_onto-rev_onto s String.[] String.[] ∙ append-nil s))
