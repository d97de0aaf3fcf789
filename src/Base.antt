-- ===== src/Base.antt =====
-- The names that the other modules share: the libraries' names passed on, Boolean tests on numbers
-- and texts, results with an error, lists, and the parts of the Go package `strings` that the
-- server calls.
mod Tests
mod Results
mod Lists
mod Int
mod Sort
mod Ascii
mod Decimal
mod Text
mod Trim
pub use Tests.*
pub use Results.*
pub use Decimal.{itoa-injective, itoa-IsPlain}
pub use Ascii.{is_digit, is_letter, nul, no_nul, IsPlain, nul_cut}
unfoldable pub use Ascii.{all_chars}
unfoldable pub use Decimal.{itoa}
pub use Sort.{In, sort_by-In}
unfoldable pub use Sort.{text_less, insert_by, sort_by}
pub use Int.{
  ℤ, pos, negsuc, ltz, eqz, pos_part, neg_part, sub_ℕ, ◌+ℤ◌, ◌-ℤ◌, word64, half64, add64-pos,
  sub64-pos,
}
unfoldable pub use Int.{wrap64, add64, sub64}
pub use Lists.{
  length, All, All-weaken, is_nil, length-append, Dict, vacant, slot, lookup-insert, inserted_cases,
  size-insert, grown,
}
unfoldable pub use Lists.{elem, lookup, insert, size}
pub use Trim.{trim_space_lem}
unfoldable pub use Trim.{no_space}
pub use Text.{is_space, trim_left, rev_onto, reverse_text, contains, blank}
unfoldable pub use Text.{trim_space}
pub use Prim.Native.Nat.{ℕ, zero, suc, ◌+◌, ◌-◌, ◌*◌, ◌≤◌, ◌<◌}
pub use Prim.Native.String.{String}
pub use mathlib.Core.Path.{◌≡◌, refl, sym, ap, ◌∙◌, subst}
pub use mathlib.Core.Logic.{◌≢◌, ◌↔◌, ◌⊎◌, inl, inr}
pub use mathlib.Core.Bool.{Bool, true, false, ◌&&◌, ◌||◌, not}
pub use mathlib.Core.Option.{Option, none, some}
pub use mathlib.Core.List.{List, [], ◌∷◌, ◌++◌, map}
pub use native.Mathlib.Omega.{arith}
pub use text.Mathlib.Text.{◌==◌}
pub use text.Mathlib.TextEquality.{eq_iff}
pub use text.Mathlib.TextPositions.{eq_refl}
