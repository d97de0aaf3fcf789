-- ===== src/CraftHandoff/Service/Records.antt =====
-- What the stored handoffs say, and whose they are.
use Prim.Native.Char.{code}
use Prim.Native.String.{◌++◌}
use leads_engine.Base.{
  ◌≡◌, true, false, some, none, String, List, [], ◌∷◌, arith, ok, lookup, lookup-insert, eq_iff, ℕ,
  ℤ, pos, negsuc, ltz, inl, inr, refl, Option-cases, text_cases, Bool-cases, subst, ◌⊎◌,
  Result-cases, ap, ◌∙◌, IsPlain, nul_cut, all_chars, no_nul, itoa-IsPlain, itoa-injective, nul,
  Dict,
}
use leads_engine.CraftHandoff.{State, Input, Handed, new_service}
use leads_engine.CraftHandoff.Material.{canonical_id, is_id_char, looks_like_contact}
use leads_engine.CraftHandoff.Service.{
  itoa_int, handoff_key, key_of, bind, new_handoff, seal, is_revoked, handoff_bound, handoff,
  input_refusal, Call, call_save, call_edit, call_revoke, call_handoff, step, run,
}
use leads_engine.CraftHandoff.Service.Kept.{
  handoffs-bind, handoffs-save, handoffs-edit, handoffs-revoke,
}
use leads_engine.CraftHandoff.Service.Replay.{handoff_stores}

id_char-no_nul : (c : ℕ) → is_id_char c ≡ true → no_nul c ≡ true
id_char-no_nul c h = ground arith

id_chars-IsPlain : (s : String) → all_chars is_id_char s ≡ true → IsPlain s
unfolding all_chars
id_chars-IsPlain String.[] h = refl
id_chars-IsPlain (String.◌∷◌ c s) h =
    let first = id_char-no_nul (code c) in ground (arith, id_chars-IsPlain s)

canonical_id-IsPlain : (s : String) → canonical_id s ≡ true → IsPlain s
unfolding canonical_id
canonical_id-IsPlain s h = ground (arith, id_chars-IsPlain s)

-- A version that passes the checks.
itoa_int-IsPlain : (v : ℤ) → ltz v (pos 1) ≡ false → IsPlain (itoa_int v)
unfolding itoa_int
itoa_int-IsPlain (pos n) h = itoa-IsPlain n
itoa_int-IsPlain (negsuc n) h = absurd (ground arith)

itoa_int-injective :
    (v w : ℤ) → ltz v (pos 1) ≡ false → ltz w (pos 1) ≡ false → itoa_int v ≡ itoa_int w → v ≡ w
unfolding itoa_int
itoa_int-injective (pos m) (pos n) h k e = ap pos (itoa-injective m n e)
itoa_int-injective (pos m) (negsuc n) h k e = absurd (ground arith)
itoa_int-injective (negsuc m) w h k e = absurd (ground arith)

-- What the checks of the arguments let through.
abbrev IsClear : String → String → ℤ → Type 0
IsClear tenant lead version =
    (canonical_id tenant ≡ true) × (canonical_id lead ≡ true) × (ltz version (pos 1) ≡ false)

key_cut :
    (t l g t' l' g' : String) (v v' : ℤ)
    → IsClear t l v
    → IsClear t' l' v'
    → handoff_key t l v g ≡ handoff_key t' l' v' g'
    → (t ≡ t') × (l ≡ l') × (v ≡ v') × (g ≡ g')
unfolding handoff_key
key_cut t l g t' l' g' v v' (a, b, c) (a', b', c') e =
    let (same_tenant, rest) =
      nul_cut t t' (l ++ (nul ++ (itoa_int v ++ (nul ++ g))))
        (l' ++ (nul ++ (itoa_int v' ++ (nul ++ g')))) (canonical_id-IsPlain t a)
        (canonical_id-IsPlain t' a') e in
    let (same_lead, tail) =
      nul_cut l l' (itoa_int v ++ (nul ++ g)) (itoa_int v' ++ (nul ++ g'))
        (canonical_id-IsPlain l b) (canonical_id-IsPlain l' b') rest in
    let (same_version, same_target) =
      nul_cut (itoa_int v) (itoa_int v') g g' (itoa_int-IsPlain v c) (itoa_int-IsPlain v' c')
        tail in
    (same_tenant, same_lead, itoa_int-injective v v' c c' same_version, same_target)

input_refusal-IsClear :
    (i : Input) → input_refusal i ≡ none → IsClear i.tenant_id i.lead_id i.version
unfolding input_refusal
input_refusal-IsClear i h = (ground arith, ground arith, ground arith)

-- The payload names its own lead and version, and a payer that is an id and no contact.
abbrev IsLean : Handed → Type 0
IsLean h =
    (h.payload.source_lead_id ≡ h.lead_id)
    × (h.payload.version ≡ h.version)
    × (canonical_id h.payload.payer_ref ≡ true)
    × (looks_like_contact h.payload.payer_ref ≡ false)

abbrev IsRecord : String → Handed → Type 0
IsRecord k h =
    (handoff_key h.tenant_id h.lead_id h.version h.target ≡ k)
    × IsClear h.tenant_id h.lead_id h.version
    × IsLean h

abbrev AllRecord : Dict Handed → Type 0
AllRecord m = (k : String) (h : Handed) → lookup k m ≡ some h → IsRecord k h

module _ (digest : String → String) where
  new_handoff-IsRecord :
      (i : Input) → input_refusal i ≡ none → IsRecord (key_of i) (new_handoff digest i)
  unfolding new_handoff key_of input_refusal seal
  new_handoff-IsRecord i clear =
      (refl, input_refusal-IsClear i clear, (refl, refl, ground arith, ground arith))

  -- A handoff of the new state was there, or is the one that this input makes.
  handoff_bound_found :
      (s : State) (i : Input) (k : String) (h : Handed)
      → lookup k (handoff_bound digest s i).0.handoffs ≡ some h
      → (lookup k s.handoffs ≡ some h) ⊎ ((key_of i ≡ k) × (new_handoff digest i ≡ h))
  unfolding handoff_bound
  handoff_bound_found s i k h found =
      let stored = lookup-insert (key_of i) k (new_handoff digest i) s.handoffs in
      elim (text_cases (key_of i) k) [
        | inr ne ↦ inl (ground arith)
        | inl e ↦ elim (Option-cases (lookup (key_of i) s.handoffs)) [
          | inr (x, old) ↦ inl (ground arith)
          | inl fresh ↦ elim (Bool-cases i.target_failed) [
            | inl failed ↦ inl (ground arith)
            | inr fine ↦ elim (Bool-cases (is_revoked s i.lead_id)) [
              | inl gone ↦ inl (ground arith)
              | inr allowed ↦ inr (e, ground (arith, eq_iff (key_of i) k))
            ]
          ]
        ]
      ]

  handoff-AllRecord :
      (s : State) (i : Input) → AllRecord s.handoffs → AllRecord (handoff digest s i).0.handoffs
  unfolding handoff
  handoff-AllRecord s i all k h found = elim (Option-cases (input_refusal i)) [
    | inr (why, r) ↦ all k h (ground arith)
    | inl clear ↦ elim (Result-cases (bind s i.tenant_id i.lead_id)) [
      | inl (why, r) ↦ all k h (ground arith)
      | inr (bound, r) ↦
          let (same, _) = handoffs-bind s i.tenant_id i.lead_id bound r in
          elim (handoff_bound_found bound i k h (ground arith)) [
            | inl old ↦ all k h (ground arith)
            | inr (e, f) ↦
                subst (λ (x : Handed). IsRecord k x) f
                  (subst (λ (x : String). IsRecord x (new_handoff digest i)) e
                    (new_handoff-IsRecord i clear))
          ]
    ]
  ]

  step-AllRecord :
      (s : State) (c : Call) → AllRecord s.handoffs → AllRecord (step digest s c).handoffs
  unfolding step
  step-AllRecord s (call_save req) all k h found = all k h (ground (arith, handoffs-save s req))
  step-AllRecord s (call_edit tenant lead body) all k h found =
      all k h (ground (arith, handoffs-edit s tenant lead body))
  step-AllRecord s (call_revoke tenant lead) all k h found =
      all k h (ground (arith, handoffs-revoke s tenant lead))
  step-AllRecord s (call_handoff i) all k h found = handoff-AllRecord s i all k h found

  run-AllRecord :
      (s : State) (calls : List Call)
      → AllRecord s.handoffs
      → AllRecord (run digest s calls).handoffs
  unfolding run
  run-AllRecord s [] all = all
  run-AllRecord s (c ∷ calls) all = run-AllRecord (step digest s c) calls (step-AllRecord s c all)

new-AllRecord : AllRecord new_service.handoffs
unfolding lookup
new-AllRecord k h found = ground arith

handoff_clear :
    (digest : String → String) (s : State) (i : Input) (h : Handed)
    → (handoff digest s i).1 ≡ ok h
    → input_refusal i ≡ none
unfolding handoff
handoff_clear digest s i h e = ground arith

-- After any calls of a new service, a handoff that succeeds, whether it is new or was stored by an
-- earlier call, is for the tenant, lead, version and target that were asked for, and its payload
-- is that lead, that version and a payer reference that is an id and does not look like a contact.
pub handoff_ownership :
    (digest : String → String) (calls : List Call) (i : Input) (h : Handed)
    → (handoff digest (run digest new_service calls) i).1 ≡ ok h
    → (h.tenant_id ≡ i.tenant_id)
      × (h.lead_id ≡ i.lead_id)
      × (h.version ≡ i.version)
      × (h.target ≡ i.target)
      × (h.payload.source_lead_id ≡ i.lead_id)
      × (h.payload.version ≡ i.version)
      × (canonical_id h.payload.payer_ref ≡ true)
      × (looks_like_contact h.payload.payer_ref ≡ false)
unfolding key_of seal
handoff_ownership digest calls i h e =
    let s = run digest new_service calls in
    let (held, found, same) = handoff_stores digest s i h e in
    let all = handoff-AllRecord digest s i (run-AllRecord digest new_service calls new-AllRecord) in
    let (key, clear, (lead, version, payer, plain)) = all (key_of i) held found in
    let (t, l, v, g) =
      key_cut held.tenant_id held.lead_id held.target i.tenant_id i.lead_id i.target held.version
        i.version clear (input_refusal-IsClear i (handoff_clear digest s i h e)) key in
    rw same (t, l, v, g, lead ∙ l, version ∙ v, payer, plain)
