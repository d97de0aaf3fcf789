-- ===== src/LightCopy/Packets.antt =====
-- What a packet may hold.
use leads_engine.Base.{
  true, ◌≡◌, ◌⊎◌, inl, inr, Option, none, some, String, List, [], ◌∷◌, ℤ, ltz, elem, Dict, vacant,
  lookup, insert, inserted_cases, sym, ◌∙◌, subst, arith, eq_iff, Option-cases, text_cases,
}
use leads_engine.LightCopy.{Reason, Subject, Fact, words, cents, copy_fact, copy_facts, project}

-- The fact is the subject's own, and a price is still valid.
abbrev pub Backed : Subject → ℤ → String → Fact → Type 0
Backed sub now key f =
    ((key ≡ "title") × (f ≡ words sub.title))
    ⊎ (((key ≡ "activity_ref") × (f ≡ words sub.activity_ref))
        ⊎ ((key ≡ "price_cents")
            × ((n : ℤ) × (sub.price_cents ≡ some n)
                × (f ≡ cents n)
                × (ltz now sub.price_valid_until ≡ true))))

-- A turn without refusal adds at most the fact of its key.
copy_fact-Backed :
    (sub : Subject) (now : ℤ) (turn key : String) (facts : Dict Fact) (f : Fact)
    → (copy_fact sub now turn facts).1 ≡ none
    → lookup key (copy_fact sub now turn facts).0 ≡ some f
    → (lookup key facts ≡ some f) ⊎ ((turn ≡ key) × Backed sub now key f)
unfolding copy_fact
copy_fact-Backed sub now turn key facts f kept found = elim (text_cases turn "title") [
  | inl title ↦
      let hit = eq_iff turn "title" in
      let moved : (copy_fact sub now turn facts).0 ≡ insert "title" (words sub.title) facts =
        ground arith in
      elim (inserted_cases "title" key (words sub.title) f facts
        (subst (λ d. lookup key d ≡ some f) moved found)) [
          | inl old ↦ inl old
          | inr (same, value) ↦ inr (title ∙ same, inl (sym same, sym value))
        ]
  | inr no_title ↦ elim (text_cases turn "activity_ref") [
    | inl activity ↦
        let hit = eq_iff turn "activity_ref" in
        let moved : (copy_fact sub now turn facts).0
            ≡ insert "activity_ref" (words sub.activity_ref) facts =
          ground arith in
        elim (inserted_cases "activity_ref" key (words sub.activity_ref) f facts
          (subst (λ d. lookup key d ≡ some f) moved found)) [
            | inl old ↦ inl old
            | inr (same, value) ↦ inr (activity ∙ same, inr (inl (sym same, sym value)))
          ]
    | inr no_activity ↦ elim (text_cases turn "price_cents") [
      | inr no_price ↦ inl (ground arith)
      | inl price ↦
          let hit = eq_iff turn "price_cents" in
          elim (Option-cases sub.price_cents) [
            | inl n ↦ absurd (ground arith)
            | inr (n, e) ↦
                let moved : (copy_fact sub now turn facts).0
                    ≡ insert "price_cents" (cents n) facts =
                  ground arith in
                let valid : ltz now sub.price_valid_until ≡ true = ground arith in
                elim (inserted_cases "price_cents" key (cents n) f facts
                  (subst (λ d. lookup key d ≡ some f) moved found)) [
                    | inl old ↦ inl old
                    | inr (same, value) ↦
                        inr (price ∙ same, inr (inr (sym same, (n, e, sym value, valid))))
                  ]
          ]
    ]
  ]
]

copy_facts-Backed :
    (sub : Subject) (now : ℤ) (selected : List String) (key : String) (facts : Dict Fact) (f : Fact)
    → (copy_facts sub now selected facts).1 ≡ none
    → lookup key (copy_facts sub now selected facts).0 ≡ some f
    → (lookup key facts ≡ some f) ⊎ ((elem key selected ≡ true) × Backed sub now key f)
unfolding copy_facts elem
copy_facts-Backed sub now [] key facts f kept found = inl found
copy_facts-Backed sub now (turn ∷ selected) key facts f kept found =
    let next = (copy_fact sub now turn facts).0 in
    elim (Option-cases (copy_fact sub now turn facts).1) [
      | inr (r, e) ↦ absurd (ground arith)
      | inl e ↦
          let moved : copy_facts sub now (turn ∷ selected) facts
              ≡ copy_facts sub now selected next =
            ground arith in
          let later =
            copy_facts-Backed sub now selected key next f (ground arith)
              (subst (λ (p : Dict Fact × Option Reason). lookup key p.0 ≡ some f) moved found) in
          elim later [
            | inr (listed, backed) ↦ inr (ground arith, backed)
            | inl here ↦ elim (copy_fact-Backed sub now turn key facts f e here) [
              | inl old ↦ inl old
              | inr (same, backed) ↦ let hit = eq_iff turn key in inr (ground arith, backed)
            ]
          ]
    ]

-- Every fact of a packet that is not refused was selected, is the title, the activity or a price that
-- is still valid, and is that of a subject of the caller's own tenant.
pub project-Backed :
    (caller : String) (sub : Subject) (selected : List String) (now : ℤ) (key : String) (f : Fact)
    → (project caller sub selected now).1 ≡ none
    → lookup key (project caller sub selected now).0.facts ≡ some f
    → (caller ≡ sub.tenant_id) × (elem key selected ≡ true) × Backed sub now key f
unfolding project lookup
project-Backed caller sub selected now key f kept found =
    let own = eq_iff caller sub.tenant_id in
    let copied = copy_facts sub now selected vacant in
    let clear : copied.1 ≡ none = ground arith in
    let moved : (project caller sub selected now).0.facts ≡ copied.0 = ground arith in
    elim (copy_facts-Backed sub now selected key vacant f clear
      (subst (λ d. lookup key d ≡ some f) moved found)) [
        | inl old ↦ absurd (ground arith)
        | inr (listed, backed) ↦ (ground arith, listed, backed)
      ]
