-- ===== src/TenantMap/Resolve/Single.antt =====
-- Which binding is selected from a list without overlaps.
use leads_engine.Base.{
  Bool, if◌then◌else◌, ◌≡◌, true, false, String, ◌==◌, List, [], ◌∷◌, All, arith, refl, Option,
  none, some, ok, Bool-cases, inl, inr, eq_iff, ◌&&◌, ◌||◌,
}
use leads_engine.TenantMap.{Binding, wildcard}
use leads_engine.TenantMap.Parse.{overlaps, parse}
use leads_engine.TenantMap.Parse.Sound.{Apart, parse-IsSound}
use leads_engine.TenantMap.Resolve.{exact_of, wild_of, one_of, select_binding}

-- The binding is one for this source.
unfoldable pub matches : String → String → String → Binding → Bool
unfolding wildcard
matches app ns external b =
    b.external_tenant == external && (wildcard b || b.source_app == app && b.source_ns == ns)

-- The first binding for the source.
unfoldable pub first_match : String → String → String → List Binding → Option Binding
first_match app ns external [] = none
first_match app ns external (b ∷ bs) =
    let rest = first_match app ns external bs in if matches app ns external b then some b else rest

module _ (app ns external : String) where
  overlaps-matches :
      (b c : Binding)
      → matches app ns external b ≡ true
      → matches app ns external c ≡ true
      → overlaps b c ≡ true
  unfolding matches overlaps
  overlaps-matches b c h k =
      let external_b = eq_iff b.external_tenant external in
      let external_c = eq_iff c.external_tenant external in
      let externals = eq_iff b.external_tenant c.external_tenant in
      let app_b = eq_iff b.source_app app in
      let app_c = eq_iff c.source_app app in
      let apps = eq_iff b.source_app c.source_app in
      let ns_b = eq_iff b.source_ns ns in
      let ns_c = eq_iff c.source_ns ns in let nss = eq_iff b.source_ns c.source_ns in ground arith

  -- After a binding that matches, no other does.
  rest_empty :
      (b : Binding) (bs : List Binding)
      → matches app ns external b ≡ true
      → All (λ c. overlaps b c ≡ false) bs
      → (exact_of app ns external bs ≡ []) × (wild_of external bs ≡ [])
  unfolding exact_of wild_of matches
  rest_empty b [] h all = (refl, refl)
  rest_empty b (c ∷ bs) h (apart, all) =
      let (no_exact, no_wild) = rest_empty b bs h all in
      let overlap = overlaps-matches b c h in (ground arith, ground arith)

  select_binding-Apart :
      (bs : List Binding)
      → Apart bs
      → select_binding app ns external bs ≡ ok (first_match app ns external bs)
  unfolding select_binding exact_of wild_of one_of matches first_match
  select_binding-Apart [] apart = refl
  select_binding-Apart (b ∷ bs) (all, apart) = elim (Bool-cases (matches app ns external b)) [
    | inl h ↦ let (no_exact, no_wild) = rest_empty b bs h all in ground arith
    | inr miss ↦ ground (arith, select_binding-Apart bs apart)
  ]

-- Whatever source is asked for, the bindings of an accepted list are never ambiguous: what is
-- selected is the first binding of that external tenant which is for any source or for this one.
pub select_binding-parse :
    (raw app ns external : String) (bs : List Binding)
    → parse raw ≡ ok bs
    → select_binding app ns external bs ≡ ok (first_match app ns external bs)
select_binding-parse raw app ns external bs e =
    select_binding-Apart app ns external bs (parse-IsSound raw bs e).1
