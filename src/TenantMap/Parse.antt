-- ===== src/TenantMap/Parse.antt =====
-- `Parse` of server/internal/tenantmap/map.go and its helpers, on the characters of the text.
pub mod Sound
use Prim.Native.Char.{code}
use Prim.Native.String.{len, ◌++◌}
use leads_engine.Base.{
  ℕ, zero, suc, ◌+◌, ◌*◌, ◌-◌, Bool, true, false, ◌&&◌, ◌||◌, not, Option, none, some, String, ◌==◌,
  List, [], ◌∷◌, ◌++◌ as append, if◌then◌else◌, ltb, nat_eq, Result, ok, err, trim_space, blank,
  contains, elem, is_digit, is_letter, all_chars, nul,
}
use leads_engine.TenantMap.{
  Binding, EntryError, no_equals, invalid_version, version_range, empty_target, empty_source,
  wildcard_source, source_form, invalid_id, same_tenant, Problem, empty_entry, bad_entry, duplicate,
  overlapping, wildcard_text, wildcard,
}

-- `strings.Cut` at one character.
unfoldable pub cut : ℕ → String → Option (String × String)
cut at String.[] = none
cut at (String.◌∷◌ c s) =
    let rest = cut at s in
    if nat_eq (code c) at
    then some (String.[], s)
    else elim rest [ none ↦ none | some (left, right) ↦ some (String.◌∷◌ c left, right) ]

abbrev pub first_onto : String → List String → List String
first_onto w [] = w ∷ []
first_onto w (x ∷ xs) = (w ++ x) ∷ xs

-- `strings.Split` at one character; never empty.
unfoldable pub split : ℕ → String → List String
split at String.[] = String.[] ∷ []
split at (String.◌∷◌ c s) =
    let rest = split at s in
    if nat_eq (code c) at then String.[] ∷ rest else first_onto (String.◌∷◌ c String.[]) rest

unfoldable pub digits_value : ℕ → String → Option ℕ
digits_value v String.[] = some v
digits_value v (String.◌∷◌ c s) =
    let rest = digits_value (v * 10 + (code c - 48)) s in if is_digit (code c) then rest else none

-- `strconv.Atoi` where the caller wants at least 1: an optional plus sign, digits, and a value that
-- fits 64 bits. What is negative, or is no number, is refused either way.
unfoldable pub atoi_positive : String → Option ℕ
unfolding digits_value
atoi_positive String.[] = none
atoi_positive (String.◌∷◌ c s) =
    let value =
      if nat_eq (code c) b'+'
      then (if s == "" then none else digits_value 0 s)
      else digits_value 0 (String.◌∷◌ c s) in
    elim value [
      | none ↦ none
      | some n ↦ if ltb n 1 || ltb 9223372036854775807 n then none else some n
    ]

unfoldable pub split_version : String → Result EntryError (String × ℕ)
split_version right = elim (cut b'@' right) [
  | none ↦ if blank right then err empty_target else ok (trim_space right, 1)
  | some (target, version) ↦
      if contains version "@" || version == ""
      then err invalid_version
      else elim (atoi_positive version) [
        | none ↦ err version_range
        | some n ↦ if blank target then err empty_target else ok (trim_space target, n)
      ]
]

unfoldable pub split_source : String → Result EntryError (String × String × String)
split_source left = if left == "" then err empty_source else elim (split b'/' left) [
  | [] ↦ err source_form
  | whole ∷ [] ↦ ok (wildcard_text, wildcard_text, whole)
  | app ∷ ns ∷ [] ↦ err source_form
  | app ∷ ns ∷ external ∷ [] ↦
      if app == wildcard_text || ns == wildcard_text || app == "" || ns == "" || external == ""
      then err wildcard_source
      else ok (app, ns, external)
  | app ∷ ns ∷ external ∷ more ∷ rest ↦ err source_form
]

abbrev pub is_id_char : ℕ → Bool
is_id_char c =
    is_letter c || is_digit c || nat_eq c b'.' || nat_eq c b'_' || nat_eq c b'-' || nat_eq c b':'

unfoldable pub id_ok : String → Bool
id_ok s = if s == "" || s == wildcard_text || ltb 256 (len s) then false else all_chars is_id_char s

unfoldable pub component_ok : String → Bool
component_ok s = s == wildcard_text || id_ok s

abbrev pub operator_binding : String
operator_binding = "operator_binding"

unfoldable pub checked : String → String → String → String → ℕ → Result EntryError Binding
checked app ns external target version =
    if not (component_ok app) || not (component_ok ns) || not (id_ok external) || not (id_ok target)
    then err invalid_id
    else if external == target
    then err same_tenant
    else ok (record {
      source_app = app;
      source_ns = ns;
      external_tenant = external;
      target_tenant = target;
      version = version;
      basis = operator_binding;
    })

unfoldable pub parse_one : String → Result EntryError Binding
parse_one part = elim (cut b'=' part) [
  | none ↦ err no_equals
  | some (left, right) ↦ elim (split_version (trim_space right)) [
    | err e ↦ err e
    | ok (target, version) ↦ elim (split_source (trim_space left)) [
      | err e ↦ err e
      | ok (app, ns, external) ↦ checked app ns external target version
    ]
  ]
]

unfoldable pub overlaps : Binding → Binding → Bool
unfolding wildcard
overlaps a b =
    if not (a.external_tenant == b.external_tenant)
    then false
    else if a.source_app == b.source_app && a.source_ns == b.source_ns
    then true
    else wildcard a || wildcard b

unfoldable pub source_key : Binding → String
source_key b = b.source_app ++ (nul ++ (b.source_ns ++ (nul ++ b.external_tenant)))

-- An entry of the list, and the loop over the entries with the keys seen so far: the bindings
-- that it keeps and the problems.
unfoldable pub entry : String → Result Problem Binding
entry part =
    let text = trim_space part in
    if text == ""
    then err empty_entry
    else elim (parse_one text) [ err e ↦ err (bad_entry e text) | ok b ↦ ok b ]

unfoldable pub load : List String → List String → List Binding × List Problem
load seen [] = ([], [])
load seen (part ∷ rest) = elim (entry part) [
  | err p ↦ ((load seen rest).0, p ∷ (load seen rest).1)
  | ok b ↦
      if elem (source_key b) seen
      then ((load seen rest).0, duplicate b ∷ (load seen rest).1)
      else (b ∷ (load (source_key b ∷ seen) rest).0, (load (source_key b ∷ seen) rest).1)
]

-- The overlaps of one binding with the later ones, and of all.
unfoldable pub overlaps_with : Binding → List Binding → List Problem
overlaps_with a [] = []
overlaps_with a (b ∷ bs) =
    if overlaps a b then overlapping a.external_tenant ∷ overlaps_with a bs else overlaps_with a bs

unfoldable pub all_overlaps : List Binding → List Problem
all_overlaps [] = []
all_overlaps (b ∷ bs) = append (overlaps_with b bs) (all_overlaps bs)

unfoldable pub accepted : List Binding → List Problem → Result (List Problem) (List Binding)
accepted out [] = ok out
accepted out (p ∷ ps) = err (p ∷ ps)

unfoldable pub parse : String → Result (List Problem) (List Binding)
parse raw =
    let text = trim_space raw in
    if text == ""
    then ok []
    else let loaded = load [] (split b',' text) in
      accepted loaded.0 (append loaded.1 (all_overlaps loaded.0))
