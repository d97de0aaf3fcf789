-- ===== src/CraftHandoff/Service/Safe.antt =====
-- The drafts that the service keeps, and the counts of what it never does.
use leads_engine.Base.{
  ◌≡◌, true, false, String, ◌==◌, List, [], ◌∷◌, arith, ok, err, elem, is_nil, All, All-weaken,
  subst, ok-injective, trim_space, inl, inr, refl, Result-cases, ◌⊎◌,
}
use leads_engine.CraftHandoff.{Fact, Error}
use leads_engine.CraftHandoff.Material.{
  looks_like_contact, selected_copy, kept_facts, turn, after_turn, keep, refuse, unselected,
  authorized_portrait, Turn, join_lines, allowed_keys,
}

-- A fact that a reply may hold.
abbrev pub IsSafe : Fact → Type 0
IsSafe f =
    (elem f.key allowed_keys ≡ true)
    × (f.selected ≡ true)
    × (f.authorized ≡ true)
    × ((f.value == "") ≡ false)
    × (looks_like_contact f.value ≡ false)

-- The fact says what one of the caller's facts says that is selected and authorized.
abbrev pub ComesFrom : List Fact → Fact → Type 0
ComesFrom [] f = ⊥
ComesFrom (g ∷ rest) f =
    ((g.key ≡ f.key) × (trim_space g.value ≡ f.value) × (g.selected ≡ true) × (g.authorized ≡ true))
    ⊎ ComesFrom rest f

-- A fact that the loop keeps, as it stands in the draft.
abbrev kept_as : Fact → Fact
kept_as f = record { key = f.key; value = trim_space f.value; selected = true; authorized = true }

turn_kept :
    (f g : Fact)
    → turn f ≡ keep g
    → IsSafe (kept_as f) × ((f.selected ≡ true) × (f.authorized ≡ true)) × (kept_as f ≡ g)
unfolding turn
turn_kept f g e = (
  (ground arith, refl, refl, ground arith, ground arith),
  (ground arith, ground arith),
  ground arith,
)

-- A kept fact is safe, and comes from these facts.
abbrev pub IsKept : List Fact → Fact → Type 0
IsKept facts g = IsSafe g × ComesFrom facts g

IsKept-later : (f : Fact) (rest gs : List Fact) → All (IsKept rest) gs → All (IsKept (f ∷ rest)) gs
IsKept-later f rest gs =
    All-weaken (IsKept rest) (IsKept (f ∷ rest)) gs (λ g (safe, from). (safe, inr from))

IsKept-now : (f g : Fact) (rest : List Fact) → turn f ≡ keep g → IsKept (f ∷ rest) g
IsKept-now f g rest e =
    let (safe, (selected, authorized), same) = turn_kept f g e in
    subst (IsKept (f ∷ rest)) same (safe, inl (refl, refl, selected, authorized))

after_turn-IsKept :
    (f : Fact) (rest hs gs : List Fact) (t : Turn)
    → turn f ≡ t
    → All (IsKept rest) hs
    → after_turn t (ok hs) ≡ ok gs
    → All (IsKept (f ∷ rest)) gs
unfolding after_turn
after_turn-IsKept f rest hs gs unselected e all same =
    subst (All (IsKept (f ∷ rest))) (ok-injective same) (IsKept-later f rest hs all)
after_turn-IsKept f rest hs gs authorized_portrait e all same =
    subst (All (IsKept (f ∷ rest))) (ok-injective same) (IsKept-later f rest hs all)
after_turn-IsKept f rest hs gs (keep g) e all same =
    subst (All (IsKept (f ∷ rest))) (ok-injective same)
      (IsKept-now f g rest e, IsKept-later f rest hs all)
after_turn-IsKept f rest hs gs (refuse why) e all same = absurd (ground arith)

after_turn_err : (t : Turn) (why : Error) (gs : List Fact) → after_turn t (err why) ≡ ok gs → ⊥
unfolding after_turn
after_turn_err t why gs e = ground arith

kept_facts-IsKept : (facts gs : List Fact) → kept_facts facts ≡ ok gs → All (IsKept facts) gs
unfolding kept_facts
kept_facts-IsKept [] gs e = subst (All (IsKept [])) (ok-injective e) tt
kept_facts-IsKept (f ∷ rest) gs e = elim (Result-cases (kept_facts rest)) [
  | inl (why, r) ↦ absurd (after_turn_err (turn f) why gs (rw r at e))
  | inr (hs, r) ↦
      after_turn-IsKept f rest hs gs (turn f) refl (kept_facts-IsKept rest hs r) (rw r at e)
]

-- Each fact of a reply that is put together has one of the allowed keys, a text that is not empty
-- and looks like no contact, and is one of the caller's facts, trimmed, that is selected and
-- authorized; a reply has at least one fact, and its text is the facts' texts, a line each.
pub selected_copy-IsKept :
    (facts gs : List Fact) (body : String)
    → selected_copy facts ≡ ok (gs, body)
    → All (IsKept facts) gs × (is_nil gs ≡ false) × (body ≡ join_lines gs)
unfolding selected_copy
selected_copy-IsKept facts gs body e = elim (Result-cases (kept_facts facts)) [
  | inl (why, r) ↦ absurd (ground arith)
  | inr (hs, r) ↦
      let same : hs ≡ gs = ground arith in
      (kept_facts-IsKept facts gs (ground arith), ground arith, ground arith)
]
