-- ===== src/TenantMap/Parse/Sound.antt =====
-- What the list of bindings holds once it is accepted.
use leads_engine.Base.{
  ℕ, ◌≡◌, true, false, String, ◌==◌, List, [], ◌∷◌, ◌++◌, All, arith, ltb, refl, some, Option-cases,
  ok, Result-cases, ok-injective, subst, sym, Bool-cases, inl, inr, trim_space, elem,
}
use leads_engine.TenantMap.{Binding, Problem}
use leads_engine.TenantMap.Parse.{
  cut, atoi_positive, split_version, split_source, id_ok, component_ok, operator_binding, checked,
  parse_one, overlaps, source_key, entry, load, overlaps_with, all_overlaps, accepted, parse, split,
}

-- A binding that an entry can make.
abbrev pub IsSound : Binding → Type 0
IsSound b =
    (component_ok b.source_app ≡ true)
    × (component_ok b.source_ns ≡ true)
    × (id_ok b.external_tenant ≡ true)
    × (id_ok b.target_tenant ≡ true)
    × ((b.external_tenant == b.target_tenant) ≡ false)
    × (ltb b.version 1 ≡ false)
    × (b.basis ≡ operator_binding)

-- No two bindings overlap.
abbrev pub Apart : List Binding → Type 0
Apart [] = Unit
Apart (b ∷ bs) = All (λ c. overlaps b c ≡ false) bs × Apart bs

atoi_positive-IsPositive : (s : String) (n : ℕ) → atoi_positive s ≡ some n → ltb n 1 ≡ false
unfolding atoi_positive
atoi_positive-IsPositive String.[] n e = ground arith
atoi_positive-IsPositive (String.◌∷◌ c s) n e = ground arith

split_version-positive :
    (s target : String) (n : ℕ) → split_version s ≡ ok (target, n) → ltb n 1 ≡ false
unfolding split_version
split_version-positive s target n e = elim (Option-cases (cut b'@' s)) [
  | inl r ↦ ground arith
  | inr ((left, right), r) ↦ elim (Option-cases (atoi_positive right)) [
    | inl q ↦ ground arith
    | inr (m, q) ↦ let positive = atoi_positive-IsPositive right m q in ground arith
  ]
]

checked-IsSound :
    (app ns external target : String) (version : ℕ) (b : Binding)
    → ltb version 1 ≡ false
    → checked app ns external target version ≡ ok b
    → IsSound b
unfolding checked
checked-IsSound app ns external target version b v e = (
  ground arith,
  ground arith,
  ground arith,
  ground arith,
  ground arith,
  ground arith,
  ground arith,
)

parse_one-IsSound : (part : String) (b : Binding) → parse_one part ≡ ok b → IsSound b
unfolding parse_one
parse_one-IsSound part b e = elim (Option-cases (cut b'=' part)) [
  | inl r ↦ absurd (ground arith)
  | inr ((left, right), r) ↦ elim (Result-cases (split_version (trim_space right))) [
    | inl (why, q) ↦ absurd (ground arith)
    | inr ((target, version), q) ↦ elim (Result-cases (split_source (trim_space left))) [
      | inl (why, p) ↦ absurd (ground arith)
      | inr ((app, ns, external), p) ↦
          checked-IsSound app ns external target version b
            (split_version-positive (trim_space right) target version q) (ground arith)
    ]
  ]
]

entry-IsSound : (part : String) (b : Binding) → entry part ≡ ok b → IsSound b
unfolding entry
entry-IsSound part b e = elim (Result-cases (parse_one (trim_space part))) [
  | inl (why, r) ↦ absurd (ground arith)
  | inr (made, r) ↦ parse_one-IsSound (trim_space part) b (ground arith)
]

load-IsSound : (seen parts : List String) → All IsSound (load seen parts).0
unfolding load
load-IsSound seen [] = tt
load-IsSound seen (part ∷ rest) = elim (Result-cases (entry part)) [
  | inl (p, r) ↦
      let same : (load seen (part ∷ rest)).0 ≡ (load seen rest).0 = ground arith in
      subst (All IsSound) (sym same) (load-IsSound seen rest)
  | inr (b, r) ↦ elim (Bool-cases (elem (source_key b) seen)) [
    | inl used ↦
        let same : (load seen (part ∷ rest)).0 ≡ (load seen rest).0 = ground arith in
        subst (All IsSound) (sym same) (load-IsSound seen rest)
    | inr new ↦
        let same : (load seen (part ∷ rest)).0 ≡ b ∷ (load (source_key b ∷ seen) rest).0 =
          ground arith in
        subst (All IsSound) (sym same)
          (entry-IsSound part b r, load-IsSound (source_key b ∷ seen) rest)
  ]
]

overlaps_with-nil :
    (a : Binding) (bs : List Binding) → overlaps_with a bs ≡ [] → All (λ c. overlaps a c ≡ false) bs
unfolding overlaps_with
overlaps_with-nil a [] e = tt
overlaps_with-nil a (b ∷ bs) e = (ground arith, overlaps_with-nil a bs (ground arith))

append_nil : (xs ys : List Problem) → xs ++ ys ≡ [] → (xs ≡ []) × (ys ≡ [])
append_nil [] ys e = (refl, e)
append_nil (x ∷ xs) ys e = absurd (ground arith)

all_overlaps-nil : (bs : List Binding) → all_overlaps bs ≡ [] → Apart bs
unfolding all_overlaps
all_overlaps-nil [] e = tt
all_overlaps-nil (b ∷ bs) e =
    let (first, later) = append_nil (overlaps_with b bs) (all_overlaps bs) e in
    (overlaps_with-nil b bs first, all_overlaps-nil bs later)

accepted-nil :
    (out bs : List Binding) (ps : List Problem) → accepted out ps ≡ ok bs → (ps ≡ []) × (out ≡ bs)
unfolding accepted
accepted-nil out bs [] e = (refl, ok-injective e)
accepted-nil out bs (p ∷ ps) e = absurd (ground arith)

-- In a list that is accepted no two bindings overlap, and each has ids and components of the
-- allowed characters, a target that is not its own source, and a version of at least 1.
pub parse-IsSound :
    (raw : String) (bs : List Binding) → parse raw ≡ ok bs → All IsSound bs × Apart bs
unfolding parse
parse-IsSound raw bs e = elim (Bool-cases (trim_space raw == "")) [
  | inl blank_text ↦
      let none_left : [] ≡ bs = ground arith in
      subst (λ (x : List Binding). All IsSound x × Apart x) none_left (tt, tt)
  | inr text ↦
      let loaded = load [] (split b',' (trim_space raw)) in
      let taken : accepted loaded.0 (loaded.1 ++ all_overlaps loaded.0) ≡ ok bs = rw text at e in
      let (no_problems, same) =
        accepted-nil loaded.0 bs (loaded.1 ++ all_overlaps loaded.0) taken in
      let (_, no_overlaps) = append_nil loaded.1 (all_overlaps loaded.0) no_problems in
      subst (λ (x : List Binding). All IsSound x × Apart x) same
        (load-IsSound [] (split b',' (trim_space raw)), all_overlaps-nil loaded.0 no_overlaps)
]
