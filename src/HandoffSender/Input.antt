-- ===== src/HandoffSender/Input.antt =====
-- `ConfirmedInput` of server/internal/handoffsender/document.go and its checks.
use Prim.Native.Char.{code}
use Prim.Native.String.{len, count}
use leads_engine.Base.{
  ℕ, suc, ℤ, pos, ltz, Bool, true, false, ◌&&◌, ◌||◌, not, Option, none, some, String, ◌==◌, List,
  [], ◌∷◌, if◌then◌else◌, ltb, leb, nat_eq, blank, elem, all_chars, is_digit, length, is_nil, ◌++◌,
}

pub record AssetInput : Type 0 where
  pub asset_ref : String
  pub sha256 : String
  pub size_bytes : ℤ
  pub media_type : String

pub record ConfirmedInput : Type 0 where
  pub tenant_id : String
  pub opportunity_id : String
  pub opportunity_title : String
  pub business_category : String
  pub summary : String
  pub service_category : String
  pub budget_cents : Option ℤ
  pub deadline : String
  pub assets : List AssetInput

-- The errors of `Validate` and `ValidateProvided`, in their order.
pub data Invalid : Type 0 where
  opportunity_required not_creative summary_required category_form summary_long : Invalid
  budget_form deadline_form many_assets asset_ref_form : Invalid
  duplicate_asset asset_digest asset_size asset_media : String → Invalid

abbrev is_lower : ℕ → Bool
is_lower c = leb b'a' c && leb c b'z'

abbrev is_slug_char : ℕ → Bool
is_slug_char c = is_lower c || is_digit c || nat_eq c b'-'

-- `^[a-z][a-z0-9-]{0,63}$`
unfoldable pub is_slug : String → Bool
unfolding all_chars
is_slug String.[] = false
is_slug (String.◌∷◌ c s) = is_lower (code c) && leb (len s) 63 && all_chars is_slug_char s

abbrev is_hex_char : ℕ → Bool
is_hex_char c = is_digit c || leb b'a' c && leb c b'f'

-- `^[a-f0-9]{64}$`
unfoldable pub is_digest : String → Bool
unfolding all_chars
is_digest s = nat_eq (len s) 64 && all_chars is_hex_char s

-- `^\d{4}-\d{2}-\d{2}$`, from a position on.
unfoldable pub date_from : ℕ → String → Bool
date_from at String.[] = nat_eq at 10
date_from at (String.◌∷◌ c s) =
    let rest = date_from (suc at) s in
    (if nat_eq at 4 || nat_eq at 7 then nat_eq (code c) b'-' else is_digit (code c)) && rest

unfoldable pub is_date : String → Bool
unfolding date_from
is_date s = date_from 0 s

-- One turn of the loop over the assets.
unfoldable pub asset_refusal : List String → AssetInput → Option Invalid
unfolding is_digest
asset_refusal seen a =
    if a.asset_ref == "" || ltb 256 (count a.asset_ref) || blank a.asset_ref
    then some asset_ref_form
    else if elem a.asset_ref seen
    then some (duplicate_asset a.asset_ref)
    else if not (is_digest a.sha256)
    then some (asset_digest a.asset_ref)
    else if ltz a.size_bytes (pos 1)
    then some (asset_size a.asset_ref)
    else if a.media_type == "" || ltb 256 (count a.media_type)
    then some (asset_media a.asset_ref)
    else none

unfoldable pub assets_refusal : List String → List AssetInput → Option Invalid
assets_refusal seen [] = none
assets_refusal seen (a ∷ rest) =
    let later = assets_refusal (a.asset_ref ∷ seen) rest in
    elim (asset_refusal seen a) [ some e ↦ some e | none ↦ later ]

unfoldable pub budget_ok : Option ℤ → Bool
budget_ok none = true
budget_ok (some cents) = ltz (pos 0) cents

unfoldable pub validate_provided : ConfirmedInput → Option Invalid
unfolding budget_ok assets_refusal
validate_provided i =
    if ltb 2000 (count i.summary)
    then some summary_long
    else if not (i.service_category == "") && not (is_slug i.service_category)
    then some category_form
    else if not (budget_ok i.budget_cents)
    then some budget_form
    else if not (i.deadline == "") && not (is_date i.deadline)
    then some deadline_form
    else if ltb 100 (length i.assets)
    then some many_assets
    else assets_refusal [] i.assets

unfoldable pub validate : ConfirmedInput → Option Invalid
unfolding validate_provided
validate i =
    if i.opportunity_id == ""
    then some opportunity_required
    else if not (i.business_category == "creative_service")
    then some not_creative
    else if nat_eq (count i.summary) 0
    then some summary_required
    else if not (is_slug i.service_category)
    then some category_form
    else validate_provided i

abbrev missing_if : Bool → String → List String
missing_if true name = name ∷ []
missing_if false name = []

unfoldable pub missing_fields : ConfirmedInput → List String
missing_fields i =
    missing_if (blank i.summary) "summary"
    ++ (missing_if (elim i.budget_cents [ none ↦ true | some _ ↦ false ]) "budget_cents"
        ++ (missing_if (i.deadline == "") "deadline" ++ missing_if (is_nil i.assets) "assets"))
