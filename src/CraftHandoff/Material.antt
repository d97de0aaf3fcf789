-- ===== src/CraftHandoff/Material.antt =====
-- What server/internal/crafthandoff/service.go lets into a draft or a payload.
use Prim.Native.Char.{code}
use Prim.Native.String.{len, ◌++◌}
use leads_engine.Base.{
  ℕ, suc, Bool, true, false, ◌&&◌, ◌||◌, not, String, ◌==◌, List, [], ◌∷◌, ltb, leb, nat_eq,
  if◌then◌else◌, Result, ok, err, ◌>>=◌, trim_space, blank, contains, is_digit, is_letter,
  all_chars, elem, is_nil,
}
use leads_engine.CraftHandoff.{
  Error, invalid, nothing_selected, unauthorized_fact, forbidden_fact, unauthorized_portrait, Fact,
  Input,
}

abbrev pub allowed_keys : List String
allowed_keys = "scene" ∷ "question" ∷ "offer" ∷ "next_step" ∷ []

abbrev pub forbidden_keys : List String
forbidden_keys =
    "phone" ∷ "email" ∷ "crm_profile" ∷ "profile" ∷ "sales_note" ∷ "internal_note"
    ∷ "internal_sales_note" ∷ []

abbrev pub known_targets : List String
known_targets = "goboost" ∷ "product-image" ∷ "avatar" ∷ "aicut" ∷ []

-- Eight digits in a row, after `run` digits.
unfoldable pub long_run : ℕ → String → Bool
long_run run String.[] = false
long_run run (String.◌∷◌ c s) =
    let digits = is_digit (code c) in
    let next = long_run (if digits then suc run else 0) s in
    if digits && leb 8 (suc run) then true else next

unfoldable pub looks_like_contact : String → Bool
unfolding long_run
looks_like_contact value = if contains value "@" then true else long_run 0 value

abbrev pub is_id_char : ℕ → Bool
is_id_char c =
    is_letter c || is_digit c || nat_eq c b'.' || nat_eq c b'_' || nat_eq c b':' || nat_eq c b'-'

unfoldable pub canonical_id : String → Bool
unfolding all_chars
canonical_id value =
    if value == "" || ltb 128 (len value) then false else all_chars is_id_char value

unfoldable pub contact_material : Input → Bool
unfolding trim_space
contact_material i =
    not (blank i.phone)
    || not (blank i.email)
    || not (blank i.crm_profile)
    || not (blank i.sales_notes)

-- One turn of the loop of `selectedCopy`: the fact is passed over, kept, or refused.
pub data Turn : Type 0 where
  unselected authorized_portrait : Turn
  keep : Fact → Turn
  refuse : Error → Turn

unfoldable pub turn : Fact → Turn
turn f =
    let value = trim_space f.value in
    if not f.selected
    then unselected
    else if f.key == "portrait"
    then if not f.authorized then refuse unauthorized_portrait else authorized_portrait
    else if elem f.key forbidden_keys
    then refuse forbidden_fact
    else if not (elem f.key allowed_keys) || not f.authorized
    then refuse unauthorized_fact
    else if value == ""
    then refuse invalid
    else if looks_like_contact value
    then refuse forbidden_fact
    else keep (record { key = f.key; value = value; selected = true; authorized = true })

-- The rest of the loop after one turn.
unfoldable pub after_turn : Turn → Result Error (List Fact) → Result Error (List Fact)
after_turn unselected others = others
after_turn authorized_portrait others = others
after_turn (keep g) others = others >>= (λ gs. ok (g ∷ gs))
after_turn (refuse e) others = err e

-- The facts that the loop keeps, in order.
unfoldable pub kept_facts : List Fact → Result Error (List Fact)
kept_facts [] = ok []
kept_facts (f ∷ rest) = after_turn (turn f) (kept_facts rest)

-- `strings.Join(parts, "\n")`
unfoldable pub join_lines : List Fact → String
join_lines [] = ""
join_lines (f ∷ []) = f.value
join_lines (f ∷ g ∷ rest) = f.value ++ ("\n" ++ join_lines (g ∷ rest))

unfoldable pub selected_copy : List Fact → Result Error (List Fact × String)
selected_copy facts =
    kept_facts facts
    >>= (λ kept. if is_nil kept then err nothing_selected else ok (kept, join_lines kept))
