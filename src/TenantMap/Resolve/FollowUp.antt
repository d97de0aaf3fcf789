-- ===== src/TenantMap/Resolve/FollowUp.antt =====
-- Which target a summary caller without a source reads.
use Prim.Native.Char.{code}
use leads_engine.Base.{
  ℕ, ◌≡◌, true, false, String, ◌==◌, List, [], ◌∷◌, All, arith, refl, Option, none, some, ok, subst,
  sym, Bool-cases, inl, inr, trim_space, ◌&&◌, ◌||◌, eq_iff, eq_refl, ◌∙◌, no_space, trim_space_lem,
  all_chars, blank,
}
use leads_engine.TenantMap.{Binding, Sticky, Decision, Lookup, wildcard_text, namespace_notify}
use leads_engine.TenantMap.Parse.{is_id_char, id_ok, component_ok, parse}
use leads_engine.TenantMap.Parse.Sound.{IsSound, parse-IsSound}
use leads_engine.TenantMap.Resolve.{
  exact_of, wild_of, one_of, select_binding, resolve, no_sticky, matched_of, same_target,
  by_matched, resolve_follow_up,
}
use leads_engine.TenantMap.Resolve.Owner.{resolve-Owns, Owns}

id_char-no_space : (c : ℕ) → is_id_char c ≡ true → no_space c ≡ true
unfolding no_space
id_char-no_space c h = ground arith

id_chars-no_space : (s : String) → all_chars is_id_char s ≡ true → all_chars no_space s ≡ true
unfolding all_chars
id_chars-no_space String.[] h = refl
id_chars-no_space (String.◌∷◌ c s) h =
    let first = id_char-no_space (code c) in ground (arith, id_chars-no_space s)

wildcard_trimmed : trim_space wildcard_text ≡ wildcard_text
unfolding trim_space
wildcard_trimmed = refl

component_trimmed : (s : String) → component_ok s ≡ true → trim_space s ≡ s
unfolding component_ok id_ok
component_trimmed s h = elim (Bool-cases (s == wildcard_text)) [
  | inl e ↦
      subst (λ (x : String). trim_space x ≡ x) (sym ((eq_iff s wildcard_text).0 e)) wildcard_trimmed
  | inr e ↦ trim_space_lem s (id_chars-no_space s (ground arith))
]

-- The selected binding has the target that all of them have.
module _ (app ns external t : String) where
  same_target-exact_of :
      (bs : List Binding)
      → same_target t bs ≡ true
      → same_target t (exact_of app ns external bs) ≡ true
  unfolding same_target exact_of
  same_target-exact_of [] h = refl
  same_target-exact_of (b ∷ bs) h = ground (arith, same_target-exact_of bs)

  same_target-wild_of :
      (bs : List Binding) → same_target t bs ≡ true → same_target t (wild_of external bs) ≡ true
  unfolding same_target wild_of
  same_target-wild_of [] h = refl
  same_target-wild_of (b ∷ bs) h = ground (arith, same_target-wild_of bs)

  one_of-target :
      (xs ys : List Binding) (c : Binding)
      → same_target t xs ≡ true
      → same_target t ys ≡ true
      → one_of xs ys ≡ ok (some c)
      → (c.target_tenant == t) ≡ true
  unfolding one_of same_target
  one_of-target [] [] c h k e = ground arith
  one_of-target (x ∷ []) [] c h k e = ground arith
  one_of-target [] (y ∷ []) c h k e = ground arith
  one_of-target (x ∷ []) (y ∷ ys) c h k e = ground arith
  one_of-target (x ∷ z ∷ xs) ys c h k e = ground arith
  one_of-target [] (y ∷ z ∷ ys) c h k e = ground arith

  select_binding-target :
      (bs : List Binding) (c : Binding)
      → same_target t bs ≡ true
      → select_binding app ns external bs ≡ ok (some c)
      → (c.target_tenant == t) ≡ true
  unfolding select_binding
  select_binding-target bs c h e =
      one_of-target (exact_of app ns external bs) (wild_of external bs) c
        (same_target-exact_of bs h) (same_target-wild_of bs h) e

one_of-none : (xs ys : List Binding) → one_of xs ys ≡ ok none → (xs ≡ []) × (ys ≡ [])
unfolding one_of
one_of-none [] [] e = (refl, refl)
one_of-none (x ∷ []) [] e = (ground arith, ground arith)
one_of-none [] (y ∷ []) e = (ground arith, ground arith)
one_of-none (x ∷ []) (y ∷ ys) e = (ground arith, ground arith)
one_of-none (x ∷ z ∷ xs) ys e = (ground arith, ground arith)
one_of-none [] (y ∷ z ∷ ys) e = (ground arith, ground arith)

-- A list whose first binding is for the source has a selected one.
select_binding-some :
    (b : Binding) (bs : List Binding)
    → select_binding b.source_app b.source_ns b.external_tenant (b ∷ bs) ≡ ok none
    → ⊥
unfolding select_binding exact_of wild_of
select_binding-some b bs e =
    let external = b.external_tenant in
    let (no_exact, no_wild) =
      one_of-none (exact_of b.source_app b.source_ns external (b ∷ bs)) (wild_of external (b ∷ bs))
        e in
    let same_app = eq_refl b.source_app in
    let same_ns = eq_refl b.source_ns in let same_external = eq_refl external in ground arith

matched_of-external :
    (x : String) (bs : List Binding)
    → All IsSound bs
    → All (λ b. (b.external_tenant ≡ x) × IsSound b) (matched_of x bs)
unfolding matched_of
matched_of-external x [] all = tt
matched_of-external x (b ∷ bs) (here, all) =
    let rest = matched_of-external x bs all in
    let means = b.source_ns == namespace_notify || b.source_ns == wildcard_text in
    let P : Binding → Type 0 = λ c. (c.external_tenant ≡ x) × IsSound c in
    elim (Bool-cases (b.external_tenant == x && means)) [
      | inl h ↦
          let same : matched_of x (b ∷ bs) ≡ b ∷ matched_of x bs = ground arith in
          let own : b.external_tenant ≡ x = ground (arith, eq_iff b.external_tenant x) in
          subst (All P) (sym same) ((own, here), rest)
      | inr h ↦
          let same : matched_of x (b ∷ bs) ≡ matched_of x bs = ground arith in
          subst (All P) (sym same) rest
    ]

same_target-All :
    (t : String) (bs : List Binding) → same_target t bs ≡ true → All (λ b. b.target_tenant ≡ t) bs
unfolding same_target
same_target-All t [] h = tt
same_target-All t (b ∷ bs) h =
    (ground (arith, eq_iff b.target_tenant t), same_target-All t bs (ground arith))

-- The binding that is selected for the first of them.
matched_target :
    (b : Binding) (bs : List Binding) (external t : String) (lookup : Lookup) (d : Decision)
    → IsSound b
    → b.external_tenant ≡ trim_space external
    → same_target t (b ∷ bs) ≡ true
    → resolve b.source_app b.source_ns external (b ∷ bs) no_sticky lookup ≡ ok d
    → t ≡ d.target_tenant
matched_target b bs external t lookup d sound own same e =
    let (_, _, (bound, selected, owns)) =
      resolve-Owns b.source_app b.source_ns external (b ∷ bs) no_sticky lookup d e in
    let app = component_trimmed b.source_app sound.0 in
    let ns = component_trimmed b.source_ns sound.1 in
    let selected' : select_binding b.source_app b.source_ns b.external_tenant (b ∷ bs) ≡ ok bound =
      rw (app, ns, sym own) at selected in
    from_bound bound selected' owns
  where
    from_bound :
        (bound : Option Binding)
        → select_binding b.source_app b.source_ns b.external_tenant (b ∷ bs) ≡ ok bound
        → Owns bound no_sticky lookup (trim_space external) d.target_tenant
        → t ≡ d.target_tenant
    from_bound none selected owns = absurd (select_binding-some b bs selected)
    from_bound (some c) selected (inl (f, _, _)) = ground arith
    from_bound (some c) selected (inr (_, (target, _, _))) =
        let of_all =
          select_binding-target b.source_app b.source_ns b.external_tenant t (b ∷ bs) c same
            selected in
        sym ((eq_iff c.target_tenant t).0 of_all) ∙ target

by_matched-agrees :
    (bs : List Binding) (external : String) (lookup : Lookup) (d : Decision)
    → All (λ b. (b.external_tenant ≡ trim_space external) × IsSound b) bs
    → by_matched external bs lookup ≡ ok d
    → All (λ b. b.target_tenant ≡ d.target_tenant) bs
unfolding by_matched same_target
by_matched-agrees [] external lookup d all e = tt
by_matched-agrees (b ∷ bs) external lookup d ((own, sound), all) e =
    let t = b.target_tenant in
    let reflexive = eq_refl t in
    let same : same_target t (b ∷ bs) ≡ true = ground arith in
    let target = matched_target b bs external t lookup d sound own same (ground arith) in
    subst (λ (x : String). All (λ c. c.target_tenant ≡ x) (b ∷ bs)) target
      (same_target-All t (b ∷ bs) same)

-- With accepted bindings and nothing stored, a summary caller that names no source reads a target
-- only if every binding of that external tenant for notifications, or for any namespace, has it.
pub resolve_follow_up-agrees :
    (raw source_app external : String) (bs : List Binding) (sticky : Sticky) (lookup : Lookup)
    (d : Decision)
    → parse raw ≡ ok bs
    → sticky.ambiguous ≡ false
    → sticky.found ≡ false
    → blank source_app ≡ true
    → resolve_follow_up source_app external bs sticky lookup ≡ ok d
    → All (λ b. b.target_tenant ≡ d.target_tenant) (matched_of (trim_space external) bs)
unfolding resolve_follow_up
resolve_follow_up-agrees raw source_app external bs sticky lookup d p a f s e =
    let (sound, _) = parse-IsSound raw bs p in
    by_matched-agrees (matched_of (trim_space external) bs) external lookup d
      (matched_of-external (trim_space external) bs sound) (ground arith)
