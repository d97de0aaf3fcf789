-- ===== src/TenantMap/Resolve/Examples.antt =====
-- Bindings that are parsed and resolved.
use leads_engine.Base.{
  if◌then◌else◌, ◌≡◌, true, false, String, ◌==◌, List, [], ◌∷◌, All, Option, none, some, ok, err,
  refl, trim_space, blank, inl, elem, all_chars,
}
use leads_engine.TenantMap.{Binding, Sticky, Decision, Lookup, lookup_failed, wildcard}
use leads_engine.TenantMap.Parse.{
  cut, split, digits_value, atoi_positive, split_version, split_source, id_ok, component_ok,
  checked, parse_one, overlaps, source_key, entry, load, overlaps_with, all_overlaps, accepted,
  parse,
}
use leads_engine.TenantMap.Parse.Sound.{IsSound, Apart, parse-IsSound}
use leads_engine.TenantMap.Resolve.{
  exact_of, wild_of, one_of, select_binding, kept_version, kept_basis, decision, stay, settle,
  target_row, by_rows, resolve_trimmed, resolve, no_sticky, matched_of, same_target, by_matched,
  resolve_follow_up,
}
use leads_engine.TenantMap.Resolve.Single.{first_match, select_binding-parse}
use leads_engine.TenantMap.Resolve.Owner.{resolve-Owns, resolve-lookup_failed, Owns, IsOf}
use leads_engine.TenantMap.Resolve.FollowUp.{resolve_follow_up-agrees}

abbrev raw : String
raw = "ext_1=tnt_1, crm/notify/ext_2=tnt_2@3"

abbrev any_source : Binding
any_source = record {
  source_app = "*";
  source_ns = "*";
  external_tenant = "ext_1";
  target_tenant = "tnt_1";
  version = 1;
  basis = "operator_binding";
}

abbrev one_source : Binding
one_source = record {
  source_app = "crm";
  source_ns = "notify";
  external_tenant = "ext_2";
  target_tenant = "tnt_2";
  version = 3;
  basis = "operator_binding";
}

abbrev bindings : List Binding
bindings = any_source ∷ one_source ∷ []

-- Only the targets have rows.
abbrev rows : Lookup
rows id = if id == "tnt_1" then some true else some false

abbrev broken : Lookup
broken id = none

abbrev stored : Sticky
stored = record {
  found = true;
  ambiguous = false;
  target = "tnt_1";
  basis = "operator_binding";
  version = 2;
}

abbrev decided : Decision
decided = record {
  source_app = "crm";
  source_ns = "notify";
  source_tenant = "ext_1";
  target_tenant = "tnt_1";
  version = 2;
  basis = "operator_binding";
}

abbrev summary : Decision
summary = record {
  source_app = "*";
  source_ns = "*";
  source_tenant = "ext_1";
  target_tenant = "tnt_1";
  version = 1;
  basis = "operator_binding";
}

-- What a test computes with.
opened : Unit {0}
unfolding cut split digits_value atoi_positive split_version split_source id_ok component_ok checked
    parse_one overlaps source_key entry load overlaps_with all_overlaps accepted parse exact_of
    wild_of one_of select_binding kept_version kept_basis decision stay settle target_row by_rows
    resolve_trimmed resolve matched_of same_target by_matched resolve_follow_up trim_space elem
    all_chars wildcard
opened = tt

parsed : parse raw ≡ ok bindings
unfolding opened
parsed = refl

resolved : resolve "crm" "notify" "ext_1" bindings stored rows ≡ ok decided
unfolding opened
resolved = refl

read : resolve_follow_up "" "ext_1" bindings no_sticky rows ≡ ok summary
unfolding opened
read = refl

selected :
    select_binding (trim_space "crm") (trim_space "notify") (trim_space "ext_1") bindings
    ≡ ok (some any_source)
unfolding opened
selected = refl

parse-IsSound_example : All IsSound bindings × Apart bindings
parse-IsSound_example = parse-IsSound raw bindings parsed

select_binding-parse_example :
    select_binding "crm" "notify" "ext_2" bindings
    ≡ ok (first_match "crm" "notify" "ext_2" bindings)
select_binding-parse_example = select_binding-parse raw "crm" "notify" "ext_2" bindings parsed

resolve-Owns_example :
    IsOf (trim_space "crm") (trim_space "notify") (trim_space "ext_1") decided
    × (false ≡ false)
    × ((bound : Option Binding) × (select_binding
            (trim_space "crm")
            (trim_space "notify")
            (trim_space "ext_1")
            bindings
          ≡ ok bound)
        × Owns bound stored rows (trim_space "ext_1") "tnt_1")
resolve-Owns_example = resolve-Owns "crm" "notify" "ext_1" bindings stored rows decided resolved

app_given : (trim_space "crm" == "") ≡ false
unfolding opened
app_given = refl

ns_given : (trim_space "notify" == "") ≡ false
unfolding opened
ns_given = refl

external_given : (trim_space "ext_1" == "") ≡ false
unfolding opened
external_given = refl

no_app : blank "" ≡ true
unfolding opened
no_app = refl

resolve-lookup_failed_example :
    resolve "crm" "notify" "ext_1" bindings stored broken ≡ err lookup_failed
resolve-lookup_failed_example =
    resolve-lookup_failed "crm" "notify" "ext_1" bindings stored broken (some any_source) app_given
      ns_given external_given refl selected (inl refl)

resolve_follow_up-agrees_example :
    All (λ b. b.target_tenant ≡ "tnt_1") (matched_of (trim_space "ext_1") bindings)
resolve_follow_up-agrees_example =
    resolve_follow_up-agrees raw "" "ext_1" bindings no_sticky rows summary parsed refl refl no_app
      read
