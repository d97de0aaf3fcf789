-- ===== src/Base/Text.antt =====
-- `strings.TrimSpace` and `strings.Contains`.
use Prim.Native.Nat.{ℕ}
use Prim.Native.Char.{code}
use Prim.Native.String.{String}
use mathlib.Core.Bool.{Bool, true, ◌&&◌, ◌||◌}
use mathlib.Core.Path.{◌≡◌, refl}
use text.Mathlib.Text.{◌==◌, starts_with}
use leads_engine.Base.Tests.{leb, nat_eq, if◌then◌else◌}

-- `unicode.IsSpace`: the characters with the property White_Space.
abbrev pub is_space : ℕ → Bool
is_space c =
    leb 9 c && leb c 13
    || nat_eq c 32
    || nat_eq c 0x85
    || nat_eq c 0xA0
    || nat_eq c 0x1680
    || leb 0x2000 c && leb c 0x200A
    || nat_eq c 0x2028
    || nat_eq c 0x2029
    || nat_eq c 0x202F
    || nat_eq c 0x205F
    || nat_eq c 0x3000

abbrev pub trim_left : String → String
trim_left String.[] = String.[]
trim_left (String.◌∷◌ c s) =
    let rest = trim_left s in if is_space (code c) then rest else String.◌∷◌ c s

abbrev pub rev_onto : String → String → String
rev_onto String.[] acc = acc
rev_onto (String.◌∷◌ c s) acc = rev_onto s (String.◌∷◌ c acc)

abbrev pub reverse_text : String → String
reverse_text s = rev_onto s String.[]

unfoldable pub trim_space : String → String
trim_space s = reverse_text (trim_left (reverse_text (trim_left s)))

-- `strings.TrimSpace(s) == ""`
abbrev pub blank : String → Bool
blank s = trim_space s == ""

abbrev pub contains : String → String → Bool
contains String.[] needle = needle == ""
contains (String.◌∷◌ c s) needle = starts_with (String.◌∷◌ c s) needle || contains s needle

trims : (trim_space "  a b ") == "a b" && contains "a{{b" "{{" && blank " " ≡ true
unfolding trim_space
trims = refl
