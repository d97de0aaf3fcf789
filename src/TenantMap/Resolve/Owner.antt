-- ===== src/TenantMap/Resolve/Owner.antt =====
-- Who owns the events of a source.
use leads_engine.Base.{
  ◌≡◌, true, false, String, ◌==◌, List, arith, Option, none, some, Option-cases, ok, err,
  Result-cases, sym, Bool-cases, inl, inr, ◌⊎◌, trim_space, Bool, eq_iff, ap, ◌∙◌,
}
use leads_engine.TenantMap.{Binding, Sticky, Decision, Lookup, lookup_failed}
use leads_engine.TenantMap.Resolve.{
  select_binding, decision, stay, settle, target_row, by_rows, resolve_trimmed, resolve,
}

-- The target of a stored source agrees with the bindings in force.
abbrev pub Agrees : Option Binding → Lookup → String → String → Type 0
Agrees none lookup external target = target ≡ external
Agrees (some b) lookup external target = (b.target_tenant ≡ target) × (lookup target ≡ some true)

-- The target of a new source: its own tenant, or that of a binding where there is no tenant of its
-- own.
abbrev pub Picks : Option Binding → Lookup → String → String → Type 0
Picks none lookup external target = (target ≡ external) × (lookup target ≡ some true)
Picks (some b) lookup external target =
    (b.target_tenant ≡ target)
    × (lookup target ≡ some true)
    × ((target ≡ external) ⊎ (lookup external ≡ some false))

-- Why the events of a source go to this target.
abbrev pub Owns : Option Binding → Sticky → Lookup → String → String → Type 0
Owns bound sticky lookup external target =
    ((sticky.found ≡ true) × (sticky.target ≡ target) × Agrees bound lookup external target)
    ⊎ ((sticky.found ≡ false) × Picks bound lookup external target)

-- The decision names the source that it is about.
abbrev pub IsOf : String → String → String → Decision → Type 0
IsOf app ns external d = (d.source_app ≡ app) × (d.source_ns ≡ ns) × (d.source_tenant ≡ external)

stay-Owns :
    (app ns external : String) (sticky : Sticky) (bound : Option Binding) (lookup : Lookup)
    (target_exists : Bool) (d : Decision)
    → sticky.found ≡ true
    → target_row lookup bound ≡ some target_exists
    → stay app ns external sticky bound target_exists ≡ ok d
    → IsOf app ns external d × Owns bound sticky lookup external d.target_tenant
unfolding stay decision target_row
stay-Owns app ns external sticky none lookup target_exists d f row e =
    let same = eq_iff sticky.target external in
    ((ground arith, ground arith, ground arith), inl (f, ground arith, ground arith))
stay-Owns app ns external sticky (some b) lookup target_exists d f row e =
    let same = eq_iff b.target_tenant sticky.target in
    let is_target : d.target_tenant ≡ sticky.target = ground arith in
    let bound_target : b.target_tenant ≡ d.target_tenant = ground arith in
    let exists : lookup b.target_tenant ≡ some true = ground arith in
    (
      (ground arith, ground arith, ground arith),
      inl (f, sym is_target, (bound_target, ap lookup (sym bound_target) ∙ exists)),
    )

settle-Owns :
    (app ns external : String) (sticky : Sticky) (bound : Option Binding) (lookup : Lookup)
    (source_exists target_exists : Bool) (d : Decision)
    → sticky.found ≡ false
    → lookup external ≡ some source_exists
    → target_row lookup bound ≡ some target_exists
    → settle app ns external bound source_exists target_exists ≡ ok d
    → IsOf app ns external d × Owns bound sticky lookup external d.target_tenant
unfolding settle decision target_row
settle-Owns app ns external sticky none lookup source_exists target_exists d f source row e =
    let is_target : external ≡ d.target_tenant = ground arith in
    let exists : lookup external ≡ some true = ground arith in
    (
      (ground arith, ground arith, ground arith),
      inr (f, (sym is_target, ap lookup (sym is_target) ∙ exists)),
    )
settle-Owns app ns external sticky (some b) lookup source_exists target_exists d f source row e =
    let is_target : b.target_tenant ≡ d.target_tenant = ground arith in
    let exists : lookup b.target_tenant ≡ some true = ground arith in
    let same = eq_iff b.target_tenant external in
    (
      (ground arith, ground arith, ground arith),
      inr (
        f,
        (
          is_target,
          ap lookup (sym is_target) ∙ exists,
          elim (Bool-cases source_exists) [
            | inl there ↦ inl (ground arith)
            | inr gone ↦ inr (ground arith)
          ],
        ),
      ),
    )

by_rows-Owns :
    (app ns external : String) (sticky : Sticky) (bound : Option Binding) (lookup : Lookup)
    (d : Decision)
    → by_rows app ns external sticky bound (lookup external) (target_row lookup bound) ≡ ok d
    → IsOf app ns external d × Owns bound sticky lookup external d.target_tenant
unfolding by_rows
by_rows-Owns app ns external sticky bound lookup d e = elim (Option-cases (lookup external)) [
  | inl r ↦ absurd (ground arith)
  | inr (source_exists, r) ↦ elim (Option-cases (target_row lookup bound)) [
    | inl q ↦ absurd (ground arith)
    | inr (target_exists, q) ↦ elim (Bool-cases sticky.found) [
      | inl f ↦ stay-Owns app ns external sticky bound lookup target_exists d f q (ground arith)
      | inr f ↦
          settle-Owns app ns external sticky bound lookup source_exists target_exists d f r q
            (ground arith)
    ]
  ]
]

-- A source that is resolved is the one asked for, trimmed, and its target is explained: a source
-- that is stored keeps its stored target, which is the target of the selected binding, or its own
-- tenant where there is none; a new source goes to the existing target of the selected binding,
-- if it has no other tenant of its own, or with no binding to its own existing tenant.
pub resolve-Owns :
    (app ns external : String) (bindings : List Binding) (sticky : Sticky) (lookup : Lookup)
    (d : Decision)
    → resolve app ns external bindings sticky lookup ≡ ok d
    → IsOf (trim_space app) (trim_space ns) (trim_space external) d
      × (sticky.ambiguous ≡ false)
      × ((bound : Option Binding) × (select_binding
              (trim_space app)
              (trim_space ns)
              (trim_space external)
              bindings
            ≡ ok bound)
          × Owns bound sticky lookup (trim_space external) d.target_tenant)
unfolding resolve resolve_trimmed
resolve-Owns app ns external bindings sticky lookup d e =
    let a = trim_space app in
    let n = trim_space ns in
    let x = trim_space external in
    elim (Result-cases (select_binding a n x bindings)) [
      | inl (why, r) ↦ absurd (ground arith)
      | inr (bound, r) ↦
          let (parts, owns) = by_rows-Owns a n x sticky bound lookup d (ground arith) in
          (parts, ground arith, (bound, r, owns))
    ]

-- A database failure on a row that a resolution needs is reported as such, whatever the stored
-- target and the bindings say: it is never read as a missing row.
pub resolve-lookup_failed :
    (app ns external : String) (bindings : List Binding) (sticky : Sticky) (lookup : Lookup)
    (bound : Option Binding)
    → (trim_space app == "") ≡ false
    → (trim_space ns == "") ≡ false
    → (trim_space external == "") ≡ false
    → sticky.ambiguous ≡ false
    → select_binding (trim_space app) (trim_space ns) (trim_space external) bindings ≡ ok bound
    → (lookup (trim_space external) ≡ none) ⊎ (target_row lookup bound ≡ none)
    → resolve app ns external bindings sticky lookup ≡ err lookup_failed
unfolding resolve resolve_trimmed by_rows
resolve-lookup_failed app ns external bindings sticky lookup bound a n x m r (inl missing) =
    ground arith
resolve-lookup_failed app ns external bindings sticky lookup bound a n x m r (inr missing) =
    elim (Option-cases (lookup (trim_space external))) [
      | inl q ↦ ground arith
      | inr (b, q) ↦ ground arith
    ]
