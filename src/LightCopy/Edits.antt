-- ===== src/LightCopy/Edits.antt =====
-- Any edits of a draft, in any order.
use leads_engine.Base.{
  true, false, ◌≡◌, inl, inr, ◌&&◌, not, String, ◌==◌, List, [], ◌∷◌, pos, eqz, refl, sym, ap, ◌∙◌,
  subst, arith, Bool-cases, trim_space, blank, ◌||◌,
}
use leads_engine.LightCopy.{Draft, ModelOutput, generate, save_manual, confirm, is_placeholder}

pub data Edit : Type 0 where
  edit_manual : String → Edit
  edit_model : ModelOutput → Edit
  edit_confirm : Edit

abbrev pub new_draft : Draft
new_draft = record {
  body = "";
  origin = "";
  content_version = pos 0;
  generated = false;
  sent = false;
  published = false;
  marketing_permitted = false;
  user_confirmed = false;
  live_charge = pos 0;
}

unfoldable pub after_edit : Draft → Edit → Draft
unfolding generate save_manual confirm
after_edit d (edit_manual body) = (save_manual d body).0
after_edit d (edit_model model) = (generate d model).0
after_edit d edit_confirm = confirm d

unfoldable pub edit_all : Draft → List Edit → Draft
unfolding after_edit
edit_all d [] = d
edit_all d (e ∷ edits) = edit_all (after_edit d e) edits

-- Nothing has left, a charge belongs to a text of the model, and the origin says which text that is.
abbrev pub IsHonest : Draft → Type 0
IsHonest d =
    (d.sent ≡ false)
    × (d.published ≡ false)
    × (d.marketing_permitted ≡ false)
    × ((not d.generated && not (eqz d.live_charge (pos 0))) ≡ false)
    × ((d.origin == "model") ≡ d.generated)

after_edit-IsHonest : (d : Draft) (e : Edit) → IsHonest d → IsHonest (after_edit d e)
unfolding after_edit generate save_manual confirm
after_edit-IsHonest d (edit_manual body) good =
    let next = after_edit d (edit_manual body) in
    elim (Bool-cases (trim_space body == "")) [
      | inl e ↦ let same : next ≡ d = ground arith in subst IsHonest (sym same) good
      | inr e ↦
          let origin : next.origin ≡ "manual" = ground arith in
          let generated : next.generated ≡ false = ground arith in
          (
            ground arith,
            ground arith,
            ground arith,
            ground arith,
            ap (λ s. s == "model") origin ∙ sym generated,
          )
    ]
after_edit-IsHonest d (edit_model model) good =
    let next = after_edit d (edit_model model) in
    elim (Bool-cases (not model.from_live_model || blank model.text || is_placeholder model.text)) [
      | inl e ↦ let same : next ≡ d = ground arith in subst IsHonest (sym same) good
      | inr e ↦
          let origin : next.origin ≡ "model" = ground arith in
          let generated : next.generated ≡ true = ground arith in
          (
            ground arith,
            ground arith,
            ground arith,
            ground arith,
            ap (λ s. s == "model") origin ∙ sym generated,
          )
    ]
after_edit-IsHonest d edit_confirm (sent, published, permitted, charge, origin) =
    (refl, refl, refl, charge, origin)

edit_from-IsHonest : (d : Draft) (edits : List Edit) → IsHonest d → IsHonest (edit_all d edits)
unfolding edit_all
edit_from-IsHonest d [] good = good
edit_from-IsHonest d (e ∷ edits) good =
    edit_from-IsHonest (after_edit d e) edits (after_edit-IsHonest d e good)

-- Whatever edits a new draft goes through, nothing is sent, published or permitted for marketing,
-- a text that the model did not write carries no charge, and its origin says whether the model
-- wrote it.
pub edit_all-IsHonest : (edits : List Edit) → IsHonest (edit_all new_draft edits)
edit_all-IsHonest edits = edit_from-IsHonest new_draft edits (refl, refl, refl, refl, refl)
