-- ===== src/TenantMap/Resolve.antt =====
-- `Resolve`, `selectBinding` and `ResolveFollowUp` of server/internal/tenantmap/map.go. The database
-- is the function `lookup`, the same for the calls of one resolution.
pub mod Single
pub mod Owner
pub mod FollowUp
pub mod Examples
use leads_engine.Base.{
  ℕ, Bool, true, false, ◌&&◌, ◌||◌, not, Option, none, some, String, ◌==◌, List, [], ◌∷◌,
  if◌then◌else◌, ltb, Result, ok, err, trim_space, blank, elem, length,
}
use leads_engine.TenantMap.{
  Binding, Sticky, Decision, Lookup, Refusal, lookup_failed, conflict, target_missing, unknown,
  config, wildcard_text, namespace_notify, wildcard,
}

-- The bindings that name the source, and those for any source.
unfoldable pub exact_of : String → String → String → List Binding → List Binding
unfolding wildcard
exact_of app ns external [] = []
exact_of app ns external (b ∷ bs) =
    let rest = exact_of app ns external bs in
    if not (b.external_tenant == external) || wildcard b
    then rest
    else if b.source_app == app && b.source_ns == ns
    then b ∷ rest
    else rest

unfoldable pub wild_of : String → List Binding → List Binding
unfolding wildcard
wild_of external [] = []
wild_of external (b ∷ bs) =
    let rest = wild_of external bs in
    if not (b.external_tenant == external) then rest else if wildcard b then b ∷ rest else rest

unfoldable pub one_of : List Binding → List Binding → Result Refusal (Option Binding)
one_of [] [] = ok none
one_of (b ∷ []) [] = ok (some b)
one_of [] (b ∷ []) = ok (some b)
one_of _ _ = err config

unfoldable pub select_binding :
    String → String → String → List Binding → Result Refusal (Option Binding)
select_binding app ns external bindings =
    one_of (exact_of app ns external bindings) (wild_of external bindings)

-- `out.Version` and `out.Basis` of a source that is stored.
unfoldable pub kept_version : Sticky → Option Binding → ℕ
kept_version sticky none = if ltb sticky.version 1 then 1 else sticky.version
kept_version sticky (some b) =
    let version = if ltb sticky.version b.version then b.version else sticky.version in
    if ltb version 1 then 1 else version

unfoldable pub kept_basis : Sticky → Option Binding → String
kept_basis sticky none = if sticky.basis == "" then "legacy_stored_tenant" else sticky.basis
kept_basis sticky (some b) = "operator_binding"

unfoldable pub decision : String → String → String → String → ℕ → String → Decision
decision app ns external target version basis = record {
  source_app = app;
  source_ns = ns;
  source_tenant = external;
  target_tenant = target;
  version = version;
  basis = basis;
}

-- A source that is stored keeps its target.
unfoldable pub stay :
    String → String → String → Sticky → Option Binding → Bool → Result Refusal Decision
stay app ns external sticky none target_exists =
    if not (sticky.target == external)
    then err conflict
    else ok
        (decision app ns external sticky.target (kept_version sticky none) (kept_basis sticky none))
stay app ns external sticky (some b) target_exists =
    if not (b.target_tenant == sticky.target)
    then err conflict
    else if not target_exists
    then err target_missing
    else ok (
        decision app ns external sticky.target (kept_version sticky (some b))
          (kept_basis sticky (some b)))

-- A source that is new.
unfoldable pub settle :
    String → String → String → Option Binding → Bool → Bool → Result Refusal Decision
settle app ns external none source_exists target_exists =
    if source_exists
    then ok (decision app ns external external 1 "leads_primary_key")
    else err unknown
settle app ns external (some b) source_exists target_exists =
    if not target_exists
    then err target_missing
    else if source_exists && not (b.target_tenant == external)
    then err conflict
    else ok (decision app ns external b.target_tenant b.version "operator_binding")

-- `targetExists`, where a binding was found.
unfoldable pub target_row : Lookup → Option Binding → Option Bool
target_row lookup none = some false
target_row lookup (some b) = lookup b.target_tenant

unfoldable pub by_rows :
    String
    → String
    → String
    → Sticky
    → Option Binding
    → Option Bool
    → Option Bool
    → Result Refusal Decision
by_rows app ns external sticky bound none target = err lookup_failed
by_rows app ns external sticky bound (some source_exists) none = err lookup_failed
by_rows app ns external sticky bound (some source_exists) (some target_exists) =
    if sticky.found
    then stay app ns external sticky bound target_exists
    else settle app ns external bound source_exists target_exists

unfoldable pub resolve_trimmed :
    String → String → String → List Binding → Sticky → Lookup → Result Refusal Decision
resolve_trimmed app ns external bindings sticky lookup =
    if external == "" || app == "" || ns == ""
    then err unknown
    else if sticky.ambiguous
    then err conflict
    else elim (select_binding app ns external bindings) [
      | err e ↦ err e
      | ok bound ↦ by_rows app ns external sticky bound (lookup external) (target_row lookup bound)
    ]

unfoldable pub resolve :
    String → String → String → List Binding → Sticky → Lookup → Result Refusal Decision
resolve app ns external bindings sticky lookup =
    resolve_trimmed (trim_space app) (trim_space ns) (trim_space external) bindings sticky lookup

abbrev pub no_sticky : Sticky
no_sticky = record { found = false; ambiguous = false; target = ""; basis = ""; version = 0 }

-- The bindings that a summary caller without a source may mean.
unfoldable pub matched_of : String → List Binding → List Binding
matched_of external [] = []
matched_of external (b ∷ bs) =
    let rest = matched_of external bs in
    if not (b.external_tenant == external)
    then rest
    else if b.source_ns == namespace_notify || b.source_ns == wildcard_text
    then b ∷ rest
    else rest

-- All of them have this target: the set of targets has one element.
unfoldable pub same_target : String → List Binding → Bool
same_target target [] = true
same_target target (b ∷ bs) = b.target_tenant == target && same_target target bs

unfoldable pub by_matched : String → List Binding → Lookup → Result Refusal Decision
by_matched external [] lookup = resolve wildcard_text namespace_notify external [] no_sticky lookup
by_matched external (b ∷ bs) lookup =
    if same_target b.target_tenant bs
    then resolve b.source_app b.source_ns external (b ∷ bs) no_sticky lookup
    else err conflict

unfoldable pub resolve_follow_up :
    String → String → List Binding → Sticky → Lookup → Result Refusal Decision
resolve_follow_up source_app external bindings sticky lookup =
    if sticky.ambiguous
    then err conflict
    else if sticky.found
    then ok (
        decision (if source_app == "" then wildcard_text else source_app) namespace_notify external
          sticky.target sticky.version sticky.basis)
    else if not (blank source_app)
    then resolve source_app namespace_notify external bindings no_sticky lookup
    else by_matched external (matched_of (trim_space external) bindings) lookup
