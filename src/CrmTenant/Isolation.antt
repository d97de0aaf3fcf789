-- ===== src/CrmTenant/Isolation.antt =====
-- What the choice of a tenant, a merge and an export depend on.
use leads_engine.Base.{
  ◌≡◌, ◌≢◌, ◌↔◌, ◌⊎◌, inl, inr, String, ◌==◌, List, [], ◌∷◌, elem, arith, eq_iff, eq_refl, All,
  Dict, vacant, slot, lookup, none, if◌then◌else◌, ok, trim_space, text_cases, Bool-cases, subst,
  sym, ap,
}
use leads_engine.CrmTenant.{
  authority_tenant, chosen_tenant, target_tenant, Row, column, ExportBundle, secret_keys, rows_of,
  without_secrets, sanitize_export,
}

-- The tenant of a request is the member's own, trimmed, whatever its source tag and campaign say:
-- it is given exactly where the member has one and the body names none, the same one, or the brand,
-- and otherwise the request fails.
pub target_tenant_iff :
    (member body brand source campaign chosen : String)
    → (target_tenant member body brand source campaign ≡ ok chosen) ↔ (
        (chosen ≡ trim_space member)
        × (trim_space member ≢ "")
        × ((trim_space body ≡ "")
            ⊎ (trim_space body ≡ trim_space member)
            ⊎ (trim_space body ≡ trim_space brand)))
unfolding target_tenant authority_tenant chosen_tenant
target_tenant_iff member body brand source campaign chosen =
    let m = trim_space member in
    let b = trim_space body in
    let no_member = eq_iff m "" in
    let no_body = eq_iff b "" in
    let own = eq_iff b m in
    let of_brand = eq_iff b (trim_space brand) in
    let itself = eq_refl m in
    (
      (λ h. (
        ground arith,
        (λ e. ground arith),
        elim (text_cases b "") [
          | inl e ↦ inl e
          | inr e ↦ elim (text_cases b m) [ inl f ↦ inr (inl f) | inr f ↦ inr (inr (ground arith)) ]
        ],
      )),
      (λ (same, given, body_free). elim body_free [
        | inl e ↦ ground arith
        | inr (inl e) ↦ ground arith
        | inr (inr e) ↦ ground arith
      ]),
    )

rows_of-All :
    (tenant : String) (rows : List Row)
    → All (λ row. column "tenant_id" row ≡ tenant) (rows_of tenant rows)
unfolding rows_of
rows_of-All tenant [] = tt
rows_of-All tenant (row ∷ rows) = elim (Bool-cases (column "tenant_id" row == tenant)) [
  | inl e ↦
      let same : rows_of tenant (row ∷ rows) ≡ row ∷ rows_of tenant rows = ground arith in
      subst (All (λ (r : Row). column "tenant_id" r ≡ tenant)) (sym same)
        ((eq_iff (column "tenant_id" row) tenant).0 e, rows_of-All tenant rows)
  | inr e ↦
      let same : rows_of tenant (row ∷ rows) ≡ rows_of tenant rows = ground arith in
      subst (All (λ (r : Row). column "tenant_id" r ≡ tenant)) (sym same) (rows_of-All tenant rows)
]

lookup-without_secrets :
    (key : String) (m : Dict String)
    → lookup key (without_secrets m) ≡ (if elem key secret_keys then none else lookup key m)
unfolding lookup without_secrets
lookup-without_secrets key vacant = ground arith
lookup-without_secrets key (slot used value rest) = elim (text_cases used key) [
  | inl e ↦
      let same : elem used secret_keys ≡ elem key secret_keys =
        ap (λ (x : String). elem x secret_keys) e in
      ground (arith, lookup-without_secrets key rest)
  | inr e ↦ ground (arith, lookup-without_secrets key rest)
]

-- The second list is what the first has of the tenant, in its order.
pub data OwnPart (tenant : String) : List Row → List Row → Type 0 where
  ends : OwnPart tenant [] []
  keeps :
      (row : Row) (rows kept : List Row)
      → column "tenant_id" row ≡ tenant
      → OwnPart tenant rows kept
      → OwnPart tenant (row ∷ rows) (row ∷ kept)
  drops :
      (row : Row) (rows kept : List Row)
      → column "tenant_id" row ≢ tenant
      → OwnPart tenant rows kept
      → OwnPart tenant (row ∷ rows) kept

rows_of-OwnPart : (tenant : String) (rows : List Row) → OwnPart tenant rows (rows_of tenant rows)
unfolding rows_of
rows_of-OwnPart tenant [] = ends
rows_of-OwnPart tenant (row ∷ rows) =
    let rest = rows_of-OwnPart tenant rows in
    elim (text_cases (column "tenant_id" row) tenant) [
      | inl e ↦
          let own = eq_iff (column "tenant_id" row) tenant in
          let same : rows_of tenant (row ∷ rows) ≡ row ∷ rows_of tenant rows = ground arith in
          subst (OwnPart tenant (row ∷ rows)) (sym same)
            (keeps row rows (rows_of tenant rows) e rest)
      | inr e ↦
          let own = eq_iff (column "tenant_id" row) tenant in
          let same : rows_of tenant (row ∷ rows) ≡ rows_of tenant rows = ground arith in
          subst (OwnPart tenant (row ∷ rows)) (sym same)
            (drops row rows (rows_of tenant rows) (λ f. ground arith) rest)
    ]

-- An export holds exactly the rows of its own tenant, unchanged and in their order, whatever the
-- rows are, so none of another tenant and none at all where no row is its own; and of the further
-- values it holds none that is secret and every other one unchanged.
pub sanitize_export-IsSafe :
    (b : ExportBundle) (key : String)
    → All (λ r. column "tenant_id" r ≡ b.tenant_id) (sanitize_export b).contacts
      × (lookup key (sanitize_export b).extra
          ≡ (if elem key secret_keys then none else lookup key b.extra))
      × OwnPart b.tenant_id b.contacts (sanitize_export b).contacts
unfolding sanitize_export
sanitize_export-IsSafe b key = (
  rows_of-All b.tenant_id b.contacts,
  lookup-without_secrets key b.extra,
  rows_of-OwnPart b.tenant_id b.contacts,
)
